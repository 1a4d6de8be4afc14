-- ===== src/Cron/Table.antt =====
-- The map of internal/infra/cron/task/recurring/scheduler.go: what is found in it after each change.
use tasques.Prelude.{ℕ, String, ◌≡◌, ◌≢◌, refl, none, some, [], ◌∷◌, str_eq_iff, str_eq_refl, arith}
use tasques.Cron.{Entries, entry_of, drop_entry, put_entry}

pub entry_of-drop_self : (id : String) (es : Entries) → entry_of id (drop_entry id es) ≡ none
unfolding entry_of drop_entry
entry_of-drop_self id [] = refl
entry_of-drop_self id (x ∷ es) = let rest = entry_of-drop_self id es in ground arith

pub entry_of-drop_ne :
    (id k : String) (es : Entries) → id ≢ k → entry_of id (drop_entry k es) ≡ entry_of id es
unfolding entry_of drop_entry
entry_of-drop_ne id k [] n = refl
entry_of-drop_ne id k (x ∷ es) n =
    let rest = entry_of-drop_ne id k es n in
    ground (arith, str_eq_iff k x.task_id, str_eq_iff id x.task_id)

pub entry_of-put_self :
    (id : String) (e : ℕ) (es : Entries) → entry_of id (put_entry id e es) ≡ some e
unfolding entry_of put_entry
entry_of-put_self id e es = ground (arith, str_eq_refl id)

pub entry_of-put_ne :
    (id k : String) (e : ℕ) (es : Entries)
    → id ≢ k
    → entry_of id (put_entry k e es) ≡ entry_of id es
unfolding entry_of put_entry
entry_of-put_ne id k e es n =
    let other = entry_of-drop_ne id k es n in ground (arith, str_eq_iff id k)
