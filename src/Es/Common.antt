-- ===== src/Es/Common.antt =====
-- internal/infra/elasticsearch/common/models.go: the bodies of the responses that the services read,
-- and the errors of internal/domain and of this package in one type.
use tasques.Prelude.{ℕ, ℤ, String, Bool, ◌&&◌, Option, none, some, leb}
use tasques.Domain.Metadata.{Version}

-- What `Underlying` is: the client's own failure, or a status that the caller did not expect. The
-- texts of the errors are left out.
pub data Cause : Type 0 where
  request_failed : Cause
  unexpected_status : ℕ → Cause

-- The errors of a service: the domain's own, `ElasticsearchErr` and `JsonSerdesErr`.
pub data ServiceError (E : Type 0) : Type 0 where
  refused : E → ServiceError E
  elasticsearch_err : Cause → ServiceError E
  json_serdes_err : ServiceError E

-- One entry of a bulk response.
pub record EsBulkResponseItemInfo : Type 0 where
  pub index : String
  pub id : String
  pub seq_num : ℕ
  pub primary_term : ℕ
  pub result : String
  pub status : ℕ

pub record EsBulkResponseItem : Type 0 where
  pub index : Option EsBulkResponseItemInfo
  pub delete : Option EsBulkResponseItemInfo
  pub create : Option EsBulkResponseItemInfo
  pub update : Option EsBulkResponseItemInfo

-- `none` where the source dereferences a nil pointer.
unfoldable pub info : EsBulkResponseItem → Option EsBulkResponseItemInfo
info i = elim i.index [
  | some x ↦ some x
  | none ↦ elim i.delete [
    | some x ↦ some x
    | none ↦ elim i.create [ some x ↦ some x | none ↦ i.update ]
  ]
]

-- `200 <= status && status <= 299`
abbrev pub is_2xx : ℕ → Bool
is_2xx status = leb 200 status && leb status 299

unfoldable pub is_ok : EsBulkResponseItemInfo → Bool
is_ok i = is_2xx i.status

unfoldable pub version : EsBulkResponseItemInfo → Version
version i = record { seq_num = i.seq_num; primary_term = i.primary_term }

pub record PersistedMetadata : Type 0 where
  pub created_at : ℤ
  pub modified_at : ℤ
