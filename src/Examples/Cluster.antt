-- ===== src/Examples/Cluster.antt =====
-- A cluster that keeps index templates and lifecycle policies, for the examples. It answers a request for
-- an index with status 500. It meets what Setup.Requests asks for.
use tasques.Prelude.{
  ℕ, String, true, Option, none, some, List, [], ◌∷◌, ◌≡◌, ◌≢◌, refl, All, All-map, str_eq,
  str_eq_refl, subst, Bool-cases, inl, inr, if◌then◌else◌, arith,
}
use tasques.Domain.Json.{JsonObj}
use tasques.Es.Client.{Reply, response}
use tasques.Setup.Requests.{Cluster, Registry, ClusterLaws, Present, Stood, is_key}

abbrev pub Named : Type 0
Named = List (String × JsonObj)

pub record World : Type 0 where
  pub templates : Named
  pub policies : Named

abbrev pub find : Named → String → Option JsonObj
find [] name = none
find (x ∷ xs) name = let later = find xs name in if str_eq x.0 name then some x.1 else later

abbrev pub keys : Named → List String
keys [] = []
keys (x ∷ xs) = x.0 ∷ keys xs

abbrev pub found_or_missing : Option JsonObj → Reply (Unit {0})
found_or_missing (some body) = response 200 (some tt)
found_or_missing none = response 404 none

abbrev pub cluster : Cluster World
cluster = record {
  put_template = λ name body w. (
    response 200 (some tt),
    record { templates = (name, body) ∷ w.templates; policies = w.policies },
  );
  get_template = λ names w. (response 200 (some (keys w.templates)), w);
  put_lifecycle = λ name body w. (
    response 200 (some tt),
    record { templates = w.templates; policies = (name, body) ∷ w.policies },
  );
  get_lifecycle = λ name w. (found_or_missing (find w.policies name), w);
  create_index = λ index body w. (response 500 none, w);
  marshals = λ body. true;
}

-- One list of names has what another has.
abbrev pub Grown : Named → Named → Type 0
Grown xs ys = (name : String) → Present (find xs name) → Present (find ys name)

abbrev pub registry : Registry World
registry = record {
  template = λ w name. find w.templates name;
  policy = λ w name. find w.policies name;
  Later = λ u w. Grown u.templates w.templates × Grown u.policies w.policies;
}

find-own : (name : String) (body : JsonObj) (xs : Named) → find ((name, body) ∷ xs) name ≡ some body
find-own name body xs = rw (str_eq_refl name) refl

Grown-cons : (name : String) (body : JsonObj) (xs : Named) → Grown xs ((name, body) ∷ xs)
Grown-cons name body xs other h = elim (Bool-cases (str_eq name other)) [
  | inl e ↦ rw e tt
  | inr e ↦ rw e h
]

keys-Present : (xs : Named) → All (λ name. Present (find xs name)) (keys xs)
keys-Present [] = tt
keys-Present (x ∷ xs) = (
  rw (str_eq_refl x.0) tt,
  All-map _ _ (keys xs) (λ name. Grown-cons x.0 x.1 xs name) (keys-Present xs),
)

Present-is_key :
    (xs : Named) (name : String) → Present (find xs name) → is_key (keys xs) name ≡ true
Present-is_key [] name h = absurd h
Present-is_key (x ∷ xs) name h = elim (Bool-cases (str_eq x.0 name)) [
  | inl e ↦ rw e refl
  | inr e ↦ rw e (Present-is_key xs name (rw e at h))
]

found-Present :
    (o : Option JsonObj) {answer : Option (Unit {0})}
    → found_or_missing o ≡ response 200 answer
    → Present o
found-Present (some body) h = tt
found-Present none h = absurd (ground arith)

found_known :
    (o : Option JsonObj) {status : ℕ} {answer : Option (Unit {0})}
    → Present o
    → found_or_missing o ≡ response status answer
    → status ≢ 404
found_known (some body) p h e = ground arith
found_known none p h e = absurd p

keys_read :
    (ks read : List String)
    → ◌≡◌ {A = Reply (List String)} (response 200 (some ks)) (response 200 (some read))
    → ks ≡ read
keys_read ks read h = ground arith

known_status :
    (ks : List String) {status : ℕ} {read : Option (List String)}
    → response 200 (some ks) ≡ response status read
    → status ≢ 404
known_status ks h e = ground arith

answer_of :
    (ks : List String) {status : ℕ} {found : Option (List String)} {read : List String}
    → response 200 (some ks) ≡ response status found
    → found ≡ some read
    → ◌≡◌ {A = Reply (List String)} (response 200 (some ks)) (response 200 (some read))
answer_of ks h e = ground arith

stored_at :
    (read : World → Option JsonObj) (body : JsonObj) (w w' : World)
    → registry.Later w w'
    → read w' ≡ some body
    → Stood registry read body w w'
stored_at read body w w' h e = record {
  moment = w';
  begun = h;
  stands = e;
  ended = (λ n p. p, λ n p. p);
}

pub cluster-ClusterLaws : ClusterLaws cluster registry
cluster-ClusterLaws = record {
  later_refl = λ w. (λ name h. h, λ name h. h);
  later_trans = λ f g. (λ name h. g.0 name (f.0 name h), λ name h. g.1 name (f.1 name h));
  template_stays = λ name f h. f.0 name h;
  policy_stays = λ name f h. f.1 name h;
  put_template_later = λ name body w. (Grown-cons name body w.templates, λ n h. h);
  get_template_later = λ names w. (λ n h. h, λ n h. h);
  put_lifecycle_later = λ name body w. (λ n h. h, Grown-cons name body w.policies);
  get_lifecycle_later = λ name w. (λ n h. h, λ n h. h);
  create_index_later = λ index body w. (λ n h. h, λ n h. h);
  put_template_stored = λ name body w h.
      stored_at (λ v. registry.template v name) body w
        (record { templates = (name, body) ∷ w.templates; policies = w.policies })
        (Grown-cons name body w.templates, λ n p. p) (find-own name body w.templates);
  put_lifecycle_stored = λ name body w h.
      stored_at (λ v. registry.policy v name) body w
        (record { templates = w.templates; policies = (name, body) ∷ w.policies })
        (λ n p. p, Grown-cons name body w.policies) (find-own name body w.policies);
  get_lifecycle_found = λ name w h. found-Present (find w.policies name) h;
  get_template_found = λ names w found h.
      subst (λ l. All (λ name. Present (find w.templates name)) l)
        (keys_read (keys w.templates) found h) (keys-Present w.templates);
  get_lifecycle_present = λ name w p h. found_known (find w.policies name) p h;
  get_template_present = λ names w p h. (
    known_status (keys w.templates) h,
    λ read e.
        subst (λ l. All (λ name. is_key l name ≡ true) names)
          (keys_read (keys w.templates) read (answer_of (keys w.templates) h e))
          (All-map _ _ names (λ name. Present-is_key w.templates name) p),
  );
}
