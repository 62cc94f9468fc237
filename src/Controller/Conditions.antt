-- ===== src/Controller/Conditions.antt =====
-- What the conditions of a status say, and what `meta.SetStatusCondition` documents: the condition of
-- a type is afterwards the one that was set.
use ephemeral_credential_bro.Base.{
  String, ◌≡◌, ◌==◌, Option, none, some, List, [], ◌∷◌, if◌then◌else◌,
}
use ephemeral_credential_bro.Base.Int.{ℤ}
use ephemeral_credential_bro.Api.{Condition, ConditionStatus, Reason}
use ephemeral_credential_bro.Cluster.{Reconciler}

pub record Report : Type 0 where
  pub status : ConditionStatus
  pub observed_generation : ℤ
  pub reason : Reason

abbrev pub report_of : Condition → Report
report_of c = record {
  status = c.status;
  observed_generation = c.observed_generation;
  reason = c.reason;
}

-- What the first condition of a type says.
unfoldable pub reported : String → List Condition → Option Report
reported condition_type [] = none
reported condition_type (c ∷ l) =
    let rest = reported condition_type l in
    if c.condition_type == condition_type then some (report_of c) else rest

pub record SetsConditions {W : Type 0} (r : Reconciler W) : Type 0 where
  pub sets :
      (cs : List Condition) (c : Condition) (w : W)
      → reported c.condition_type (r.set_status_condition cs c w).0 ≡ some (report_of c)
