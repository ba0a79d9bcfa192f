-- ===== src/Common/Mode.antt =====
-- `ActivityMode` of practice-core/src/modules/catalog/activity-spec.ts and db/schema.ts.
pub data ActivityMode : Type 0 where
  guided_lab production_sim project : ActivityMode
