-- ===== src/ReviewPersistence/Repository/Validity.antt =====
-- The invariant of the stored rows: kept by each registration and each resolution.
use ai_data_quality_platform.Base.AllOf.{AllOf}
use ai_data_quality_platform.ReviewPersistence.Rows.{StorageTools}
use ai_data_quality_platform.ReviewPersistence.Rows.Reading.{IsStored}
use ai_data_quality_platform.ReviewPersistence.Tables.{ReviewStore}
use ai_data_quality_platform.ReviewPersistence.Repository.Selecting.{HasFreshId}

-- The rows as the repository leaves them, and a fresh id for the next event.
pub record StoreIsValid (tools : StorageTools) (store : ReviewStore) : Type 0 where
  pub stored : AllOf (IsStored tools) store.review_cases
  pub fresh : HasFreshId store
