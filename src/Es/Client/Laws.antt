-- ===== src/Es/Client/Laws.antt =====
-- What the documentation of Elasticsearch says of reads and of writes with optimistic locking, as far
-- as the services rely on it. Other clients write too: between a call and the moment at which the
-- server takes it up, and after, the world moves on by `Later`.
use tasques.Prelude.{ℕ, ◌<◌, String, true, ◌≡◌, Option, some, ◌⊎◌, ◌≢◌}
use tasques.Domain.Metadata.{Version}
use tasques.Es.Common.{is_2xx}
use tasques.Es.Client.{Client, response, Hit, Runtime}

-- `stored w index id` is what the server holds of a document.
pub record Store (W D : Type 0) : Type 1 where
  pub stored : W → String → String → Option (Hit D)
  pub Later : W → W → Type 0

-- The server at the moment of a write, and what it changes: one document, and no other.
pub record Written {W D : Type 0} (s : Store W D) (index id : String) (source : D) (v : Version)
    (before after : W) : Type 0 where
  pub new : s.stored after index id ≡ some (record { id = id; version = v; source = source })
  pub others : (j k : String) → (j ≢ index) ⊎ (k ≢ id) → s.stored after j k ≡ s.stored before j k

pub record ClientLaws {W D Q : Type 0} (c : Client W D Q) (s : Store W D) : Type 0 where
  pub later_refl : (w : W) → s.Later w w
  pub later_trans : {u v w : W} → s.Later u v → s.Later v w → s.Later u w
  -- A version is not given out twice for a document.
  pub version_identifies :
      (u w : W) (index id : String) (g h : Hit D)
      → s.Later u w
      → s.stored u index id ≡ some g
      → s.stored w index id ≡ some h
      → g.version ≡ h.version
      → g ≡ h
  -- Status 200 with a body: the document stood there at some moment of the call.
  pub get_found :
      (index id : String) (w : W) (hit : Hit D) (w' : W)
      → c.get index id w ≡ (response 200 (some hit), w')
      → (u : W) × s.Later w u × (s.stored u index id ≡ some hit) × s.Later u w'
  pub get_later : (index id : String) (w : W) → s.Later w (c.get index id w).1
  pub put_later :
      (index id : String) (source : D) (v : Option Version) (w : W)
      → s.Later w (c.put index id source v w).1
  -- A write that names a version, and is answered by a status of success with a body, met that
  -- version, and replaced the document.
  pub put_if :
      (index id : String) (source : D) (v v' : Version) (w : W) (status : ℕ) (w' : W)
      → c.put index id source (some v) w ≡ (response status (some v'), w')
      → is_2xx status ≡ true
      → (u : W) × (u' : W) × (old : Hit D) × s.Later w u
        × (s.stored u index id ≡ some old)
        × (old.version ≡ v)
        × Written s index id source v' u u'
        × s.Later u' w'

pub record RuntimeLaws {W D : Type 0} (rt : Runtime W) (s : Store W D) : Type 0 where
  pub utc_later : (w : W) → s.Later w (rt.get_utc w).1
  pub rand_later : (n : ℕ) (w : W) → s.Later w (rt.rand_intn n w).1
  pub rand_below : (n : ℕ) (w : W) → 0 < n → (rt.rand_intn n w).0 < n
