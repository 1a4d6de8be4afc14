-- ===== src/Es/Client.antt =====
-- What the services of internal/infra/elasticsearch use of the world outside: the client of
-- go-elasticsearch and the server behind it, the clock, the random numbers. `W` is the state of all
-- that, `D` the documents and `Q` the search bodies. Everything here is a parameter of the services.
pub mod Forward
pub mod Laws
pub mod Moves
use tasques.Prelude.{
  ℕ, ℤ, String, Bool, Option, List, Outcome, ok, err, if◌then◌else◌, ◌≡◌, refl, arith,
}
use tasques.Domain.Metadata.{Version}
use tasques.Es.Common.{EsBulkResponseItem, ServiceError, json_serdes_err}

-- An answer to a request: the client's error, or a status and the body, `none` where it does not
-- decode as what the caller reads.
pub data Reply (A : Type 0) : Type 0 where
  no_response : Reply A
  response : ℕ → Option A → Reply A

pub record Hit (D : Type 0) : Type 0 where
  pub id : String
  pub version : Version
  pub source : D

-- One operation of a bulk request; a line of action and metadata, and the document that follows it.
pub data BulkOp (D : Type 0) : Type 0 where
  index_if : (index id : String) → Version → D → BulkOp D
  delete_if : (index id : String) → Version → BulkOp D
  index_new : (index : String) → D → BulkOp D

pub record Page (D : Type 0) : Type 0 where
  pub scroll_id : String
  pub hits : List (Hit D)

pub record Client (W D Q : Type 0) : Type 0 where
  pub get : (index id : String) → W → Reply (Hit D) × W
  pub create : (index id : String) → D → W → Reply Version × W
  pub put : (index id : String) → D → Option Version → W → Reply Version × W
  pub bulk : List (BulkOp D) → W → Reply (List EsBulkResponseItem) × W
  pub search : (indices : List String) → Q → W → Reply (List (Hit D)) × W
  pub search_scroll : (index : String) → Q → ℤ → W → Reply (Page D) × W
  pub scroll : String → ℤ → W → Reply (Page D) × W
  pub clear_scroll : List String → W → Reply Unit × W
  pub refresh : (index : String) → W → Reply Unit × W
  pub count : (index : String) → Q → W → Reply ℕ × W
  -- Whether encoding/json writes the document.
  pub marshals : D → Bool
  -- Whether a status is an error to the client: `IsError` of its responses.
  pub is_error : ℕ → Bool

pub record Runtime (W : Type 0) : Type 0 where
  pub get_utc : W → ℤ × W
  pub sleep : ℤ → W → W
  -- rand.Intn
  pub rand_intn : ℕ → W → ℕ × W
  -- uuid.New(), as text without the dashes
  pub new_id : W → String × W

-- The cache of github.com/golang/groupcache/lru, from the names of queues to times.
pub record Cache (W : Type 0) : Type 0 where
  pub add : String → ℤ → W → W
  pub get : String → W → Option ℤ × W

-- A step of a service: it may change the world, also where it fails.
abbrev pub Io : Type 0 → Type 0 → Type 0 → Type 0
Io W E A = W → Outcome (ServiceError E) A × W

module _ {W E A B : Type 0} where
  abbrev pub continue :
      Outcome (ServiceError E) A × W → (A → Io W E B) → Outcome (ServiceError E) B × W
  continue (ok a, w) f = f a w
  continue (err e, w) f = (err e, w)

  infixl 5 ◌>>=◌
  abbrev pub ◌>>=◌ : Io W E A → (A → Io W E B) → Io W E B
  ◌>>=◌ m f w = continue (m w) f

module _ {W E A : Type 0} where
  abbrev pub pure : A → Io W E A
  pure a w = (ok a, w)

  abbrev pub raise : ServiceError E → Io W E A
  raise e w = (err e, w)

  abbrev pub lift : Outcome (ServiceError E) A → Io W E A
  lift r w = (r, w)

  -- A step of the world that cannot fail.
  abbrev pub run : (W → A × W) → Io W E A
  run m w = let (a, w') = m w in (ok a, w')

-- `json.Marshal(doc)`, with the error that its callers return.
unfoldable pub marshal : {W E D Q : Type 0} → Client W D Q → D → Io W E Unit
marshal c doc w = if c.marshals doc then (ok tt, w) else (err json_serdes_err, w)

module _ {W E A B : Type 0} where
  continue-ok :
      (r : Outcome (ServiceError E) A × W) (f : A → Io W E B) (w' : W) {b : B}
      → continue r f ≡ (ok b, w')
      → (a : A) × (v : W) × (r ≡ (ok a, v)) × (f a v ≡ (ok b, w'))
  continue-ok (ok a, v) f w' h = (a, v, refl, h)
  continue-ok (err e, v) f w' h = absurd (ground arith)

  -- Inversion of a step followed by another.
  pub >>=-ok :
      (m : Io W E A) (f : A → Io W E B) (w w' : W) {b : B}
      → (m >>= f) w ≡ (ok b, w')
      → (a : A) × (v : W) × (m w ≡ (ok a, v)) × (f a v ≡ (ok b, w'))
  >>=-ok m f w w' h = continue-ok (m w) f w' h

pub marshal-ok :
    {W E D Q : Type 0} (c : Client W D Q) (doc : D) (w v : W) {u : Unit}
    → marshal {E = E} c doc w ≡ (ok u, v)
    → v ≡ w
unfolding marshal
marshal-ok c doc w v h = ground arith
