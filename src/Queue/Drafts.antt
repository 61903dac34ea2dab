-- ===== src/Queue/Drafts.antt =====
-- probes/review_queue.py: `Queue.submit`, `Queue.fail` and `Queue.requeue`. What `urlsplit` and the
-- file system say of a piece of evidence is a parameter, `inspect`.
use awesome_private_inferenc.Prelude.{
  ℕ, String, Bool, true, false, ◌&&◌, ◌||◌, not, Option, none, some, List, [], ◌∷◌, ◌==◌, string_eq,
  all, if◌then◌else◌, is_some, contains,
}
use awesome_private_inferenc.Prelude.Dict.{Dict, lookup, insert}
use awesome_private_inferenc.Prelude.Text.{nonblank, has_space}
use awesome_private_inferenc.Json.{Json, str, arr, obj, Items, nil, cons}
use awesome_private_inferenc.Result.{Result, ok, err, ◌>>=◌, ◌>>◌, require, present}
use awesome_private_inferenc.Queue.Jobs.{
  queued, retryable_failure, draft_ready, blocked, Job, State, Error, key_error, type_error,
  draft_incomplete, unknown_classification, empty_text_field, not_a_list_of_text, missing_evidence,
  bad_evidence, reason_required, not_requeueable, because, by, transition, status_eq,
}
use awesome_private_inferenc.Queue.Store.{Method, transaction, checked}
use awesome_private_inferenc.Queue.Lease.{check_lease}

abbrev pub Draft : Type 0
Draft = Dict String Json

-- REQUIRED_DRAFT less the fields that are lists
abbrev pub text_fields : List String
text_fields =
    "summary" ∷ "classification" ∷ "next_action" ∷ "plaintext_boundary_impact"
    ∷ "acceptance_policy_impact" ∷ []

abbrev pub list_fields : List String
list_fields = "evidence" ∷ "checks_performed" ∷ "uncertainties" ∷ []

abbrev pub classifications : List String
classifications =
    "continuity" ∷ "substantive" ∷ "regression" ∷ "needs_evidence" ∷ "coverage" ∷ "policy_change"
    ∷ []

abbrev pub has_field : Draft → String → Bool
has_field draft name = is_some (lookup name draft)

-- `draft.get("event_id") != key`, negated
abbrev pub names_event : String → Option Json → Bool
names_event key (some (str s)) = s == key
names_event key _ = false

unfoldable pub check_classification : Option Json → Result Error (Unit {0})
check_classification (some (str s)) = require (contains s classifications) unknown_classification
check_classification (some (arr _)) = err type_error
check_classification (some (obj _)) = err type_error
check_classification (some _) = err unknown_classification
check_classification none = err key_error

-- `isinstance(draft[field], str) and draft[field].strip()`
abbrev pub is_text : Option Json → Bool
is_text (some (str s)) = nonblank s
is_text _ = false

unfoldable pub items_are_text : Items → Bool
items_are_text nil = true
items_are_text (cons (str s) xs) = nonblank s && items_are_text xs
items_are_text (cons _ xs) = false

abbrev pub is_text_list : Option Json → Bool
is_text_list (some (arr xs)) = items_are_text xs
is_text_list _ = false

abbrev pub is_nonempty : Option Json → Bool
is_nonempty (some (arr (cons _ _))) = true
is_nonempty _ = false

-- the fields that `submit` writes
unfoldable pub with_draft : Draft → ℕ → String → Job → Job
with_draft draft now worker job =
    record (transition (record job { draft = some draft }) draft_ready now (by worker)) {
      lease_token = none;
    }

unfoldable pub submit_body : String → String → Draft → ℕ → State → Result Error (Unit {0} × State)
unfolding with_draft
submit_body key token draft now state = do
  job ← present key_error (lookup key state.jobs)
  check_lease job token now
  worker ← present key_error job.worker
  ok (tt, record state { jobs = insert key (with_draft draft now worker job) state.jobs })

-- What the standard library says of one reference: its parts as a URL, and as a path below the root.
pub record Reference : Type 0 where
  pub scheme : String
  pub netloc : String
  pub absolute : Bool
  pub inside_root : Bool
  pub is_file : Bool

module _ (inspect : String → Reference) where
  unfoldable pub is_evidence : String → Bool
  is_evidence ref =
      let u = inspect ref in
      ((u.scheme == "https" || u.scheme == "http") && (not (u.netloc == "") && not (has_space ref)))
      || (u.scheme == "" && (not u.absolute && (u.inside_root && u.is_file)))

  unfoldable pub items_are_evidence : Items → Bool
  items_are_evidence nil = true
  items_are_evidence (cons (str s) xs) = is_evidence s && items_are_evidence xs
  items_are_evidence (cons _ xs) = false

  abbrev pub cites_evidence : Option Json → Bool
  cites_evidence (some (arr xs)) = items_are_evidence xs
  cites_evidence _ = false

  -- the tests of `submit` before its transaction
  unfoldable pub check_draft : String → Draft → Result Error (Unit {0})
  check_draft key draft = do
    require
        (all (has_field draft) text_fields
          && (all (has_field draft) list_fields && names_event key (lookup "event_id" draft)))
        draft_incomplete
    check_classification (lookup "classification" draft)
    require (all (λ name. is_text (lookup name draft)) text_fields) empty_text_field
    require (all (λ name. is_text_list (lookup name draft)) list_fields) not_a_list_of_text
    require (is_nonempty (lookup "evidence" draft) && is_nonempty (lookup "checks_performed" draft))
        missing_evidence
    require (cites_evidence (lookup "evidence" draft)) bad_evidence

  -- `Queue.submit`
  unfoldable pub submit : String → String → Draft → ℕ → Method (Unit {0})
  submit key token draft now =
      checked (check_draft key draft) (transaction (submit_body key token draft now))

-- the fields that `fail` writes
unfoldable pub failed : Bool → String → ℕ → Job → Job
failed is_blocked reason now job =
    record (transition job (if is_blocked then blocked else retryable_failure) now
      (because reason)) { lease_token = none }

unfoldable pub fail_body :
    String → String → String → Bool → ℕ → State → Result Error (Unit {0} × State)
fail_body key token reason is_blocked now state = do
  job ← present key_error (lookup key state.jobs)
  check_lease job token now
  ok (tt, record state { jobs = insert key (failed is_blocked reason now job) state.jobs })

-- `Queue.fail`
unfoldable pub fail : String → String → String → Bool → ℕ → Method (Unit {0})
fail key token reason is_blocked now =
    checked (require (nonblank reason) reason_required)
      (transaction (fail_body key token reason is_blocked now))

abbrev pub is_requeueable : Job → Bool
is_requeueable job =
    job.status == blocked || (job.status == retryable_failure || job.status == draft_ready)

-- the fields that `requeue` writes
unfoldable pub requeued : String → ℕ → Job → Job
requeued reason now job = transition (record job { draft = none }) queued now (because reason)

unfoldable pub requeue_body : String → String → ℕ → State → Result Error (Unit {0} × State)
requeue_body key reason now state = do
  job ← present key_error (lookup key state.jobs)
  require (is_requeueable job) not_requeueable
  ok (tt, record state { jobs = insert key (requeued reason now job) state.jobs })

-- `Queue.requeue`
unfoldable pub requeue : String → String → ℕ → Method (Unit {0})
requeue key reason now =
    checked (require (nonblank reason) reason_required) (transaction (requeue_body key reason now))
