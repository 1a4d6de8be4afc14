-- ===== src/Examples/Server.antt =====
-- A server that holds documents, for the examples: the log of its writes, the newest first. The
-- number of writes before a write is its version. It meets what Es.Client.Laws asks for.
use tasques.Prelude.{
  append_assoc, ℕ, ◌<◌, pos, String, Bool, true, false, ◌&&◌, Option, none, some, List, [], ◌∷◌,
  ◌++◌, ◌≡◌, refl, sym, ap, ◌∙◌, subst, ◌⊎◌, inl, inr, ◌≢◌, length, length-append, str_eq,
  str_eq_iff, str_eq_refl, if◌then◌else◌, Bool-cases, arith,
}
use tasques.Domain.Metadata.{Version, version_eq, version_eq_iff}
use tasques.Es.Client.{Client, Runtime, Hit, Reply, no_response, response}
use tasques.Es.Client.Laws.{Store, Written, ClientLaws, RuntimeLaws}

pub record Write (D : Type 0) : Type 0 where
  pub index : String
  pub id : String
  pub source : D

abbrev pub World : Type 0 → Type 0
World D = List (Write D)

module _ {D : Type 0} where
  abbrev pub version_after : World D → Version
  version_after w = record { seq_num = length w; primary_term = 1 }

  abbrev is_of : Write D → String → String → Bool
  is_of e index id = str_eq e.index index && str_eq e.id id

  unfoldable pub stored : World D → String → String → Option (Hit D)
  stored [] index id = none
  stored (e ∷ w) index id =
      if is_of e index id
      then some (record { id = id; version = version_after w; source = e.source })
      else stored w index id

  abbrev pub Later : World D → World D → Type 0
  Later u w = (ext : World D) × (w ≡ ext ++ u)

  unfoldable pub answer_get : Option (Hit D) → Reply (Hit D)
  answer_get none = response 404 none
  answer_get (some hit) = response 200 (some hit)

  unfoldable pub answer_create :
      Option (Hit D) → String → String → D → World D → Reply Version × World D
  answer_create none index id source w = (
    response 201 (some (version_after w)),
    record { index = index; id = id; source = source } ∷ w,
  )
  answer_create (some hit) index id source w = (response 409 none, w)

  unfoldable pub answer_put :
      Option (Hit D) → String → String → D → Option Version → World D → Reply Version × World D
  answer_put none index id source v w = (response 404 none, w)
  answer_put (some hit) index id source none w = (no_response, w)
  answer_put (some hit) index id source (some v) w =
      if version_eq hit.version v
      then (
        response 200 (some (version_after w)),
        record { index = index; id = id; source = source } ∷ w,
      )
      else (response 409 none, w)

  -- The searches and the bulk requests of this server fail.
  abbrev pub server : {Q : Type 0} → Client (World D) D Q
  server = record {
    get = λ index id w. (answer_get (stored w index id), w);
    create = λ index id source w. answer_create (stored w index id) index id source w;
    put = λ index id source v w. answer_put (stored w index id) index id source v w;
    bulk = λ ops w. (no_response, w);
    search = λ indices q w. (no_response, w);
    search_scroll = λ index q wait w. (no_response, w);
    scroll = λ id wait w. (no_response, w);
    clear_scroll = λ ids w. (no_response, w);
    refresh = λ index w. (no_response, w);
    count = λ index q w. (no_response, w);
    marshals = λ source. true;
    is_error = λ status. false;
  }

  -- A clock that stands at 100, and random numbers that are 0.
  abbrev pub runtime : Runtime (World D)
  runtime = record {
    get_utc = λ w. (pos 100, w);
    sleep = λ wait w. w;
    rand_intn = λ n w. (0, w);
    new_id = λ w. ("fresh", w);
  }

  abbrev pub store : Store (World D) D
  store = record { stored = stored; Later = Later }

  Later-refl : (w : World D) → Later w w
  Later-refl w = ([], refl)

  Later-trans : (u v w : World D) → Later u v → Later v w → Later u w
  Later-trans u v w (x, f) (y, g) = (y ++ x, g ∙ ap (λ l. y ++ l) f ∙ sym (append_assoc y x u))

  -- A version counts writes that were made.
  stored_below :
      (w : World D) (index id : String) (hit : Hit D)
      → stored w index id ≡ some hit
      → hit.version.seq_num < length w
  unfolding stored
  stored_below [] index id hit h = absurd (ground arith)
  stored_below (e ∷ w) index id hit h = elim (Bool-cases (is_of e index id)) [
    | inl b ↦ ground arith
    | inr b ↦
        let rest : stored w index id ≡ some hit = ground arith in
        omega (arith, stored_below w index id hit rest)
  ]

  version_identifies :
      (ext u : World D) (index id : String) (g h : Hit D)
      → stored u index id ≡ some g
      → stored (ext ++ u) index id ≡ some h
      → g.version ≡ h.version
      → g ≡ h
  unfolding stored
  version_identifies [] u index id g h f k same = ground arith
  version_identifies (e ∷ ext) u index id g h f k same = elim (Bool-cases (is_of e index id)) [
    | inl b ↦
        let at : h.version.seq_num ≡ length (ext ++ u) = ground arith in
        let below = stored_below u index id g f in
        absurd (omega (arith, at, below, length-append ext u, ap (λ (v : Version). v.seq_num) same))
    | inr b ↦
        let rest : stored (ext ++ u) index id ≡ some h = ground arith in
        version_identifies ext u index id g h f rest same
  ]

  get_found :
      (r : Option (Hit D)) (hit : Hit D) → answer_get r ≡ response 200 (some hit) → r ≡ some hit
  unfolding answer_get
  get_found none hit h = absurd (ground arith)
  get_found (some g) hit h = ground arith

  -- Another document is met as before.
  stored_other :
      (index id j k : String) (source : D) (w : World D)
      → (j ≢ index) ⊎ (k ≢ id)
      → stored (record { index = index; id = id; source = source } ∷ w) j k ≡ stored w j k
  unfolding stored
  stored_other index id j k source w other = elim (Bool-cases (str_eq index j && str_eq id k)) [
    | inl b ↦ absurd (elim other [
      | inl n ↦ n (sym ((str_eq_iff index j).0 (ground arith)))
      | inr n ↦ n (sym ((str_eq_iff id k).0 (ground arith)))
    ])
    | inr b ↦ ground arith
  ]

  written :
      (index id : String) (source : D) (w : World D)
      → Written store index id source
          (version_after w)
          w
          (record { index = index; id = id; source = source } ∷ w)
  unfolding stored
  written index id source w =
      let i = str_eq_refl index in
      let k = str_eq_refl id in
      record { new = ground arith; others = λ j l other. stored_other index id j l source w other }

  put_grows :
      (r : Option (Hit D)) (index id : String) (source : D) (v : Option Version) (w : World D)
      → Later w (answer_put r index id source v w).1
  unfolding answer_put
  put_grows none index id source v w = Later-refl w
  put_grows (some hit) index id source none w = Later-refl w
  put_grows (some hit) index id source (some v) w = elim (Bool-cases (version_eq hit.version v)) [
    | inl b ↦ rw b (record { index = index; id = id; source = source } ∷ [], refl)
    | inr b ↦ rw b (Later-refl w)
  ]

  put_if :
      (r : Option (Hit D)) (index id : String) (source : D) (v v' : Version) (w : World D)
      (status : ℕ) (w' : World D)
      → answer_put r index id source (some v) w ≡ (response status (some v'), w')
      → (old : Hit D) × (r ≡ some old)
        × (old.version ≡ v)
        × (v' ≡ version_after w)
        × (w' ≡ record { index = index; id = id; source = source } ∷ w)
  unfolding answer_put
  put_if none index id source v v' w status w' h = absurd (ground arith)
  put_if (some hit) index id source v v' w status w' h =
      elim (Bool-cases (version_eq hit.version v)) [
        | inl b ↦ (hit, refl, (version_eq_iff hit.version v).0 b, ground arith, ground arith)
        | inr b ↦ absurd (ground arith)
      ]

  pub server-ClientLaws : {Q : Type 0} → ClientLaws (server {Q = Q}) store
  server-ClientLaws = record {
    later_refl = Later-refl;
    later_trans = λ {u} {v} {w} f g. Later-trans u v w f g;
    version_identifies = λ u w index id g h (ext, w_eq) f k same.
        version_identifies ext u index id g h f (subst (λ x. stored x index id ≡ some h) w_eq k)
          same;
    get_found = λ index id w hit w' h. (
      w,
      Later-refl w,
      get_found (stored w index id) hit (ap (λ r. r.0) h),
      subst (λ x. Later w x) (ap (λ r. r.1) h) (Later-refl w),
    );
    get_later = λ index id w. Later-refl w;
    put_later = λ index id source v w. put_grows (stored w index id) index id source v w;
    put_if = λ index id source v v' w status w' h success.
        let (old, at, met, v_eq, w_eq) =
          put_if (stored w index id) index id source v v' w status w' h in
        let change = written index id source w in
        (
          w,
          record { index = index; id = id; source = source } ∷ w,
          old,
          Later-refl w,
          at,
          met,
          subst
              (λ x.
                Written store index id source x w
                  (record { index = index; id = id; source = source } ∷ w))
              (sym v_eq) change,
          subst (λ x. Later (record { index = index; id = id; source = source } ∷ w) x) (sym w_eq)
              (Later-refl (record { index = index; id = id; source = source } ∷ w)),
        );
  }

  pub runtime-RuntimeLaws : RuntimeLaws runtime store
  runtime-RuntimeLaws = record {
    utc_later = Later-refl;
    rand_later = λ n w. Later-refl w;
    rand_below = λ n w h. h;
  }
