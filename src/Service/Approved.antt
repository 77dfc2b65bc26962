-- ===== src/Service/Approved.antt =====
-- Approving a proposal (codex_work_scheduler/service.py, `queue_approve`).
use codex_work_scheduler.Common.{
  arith, str_eq_sound, ℕ, String, ◌≡◌, refl, sym, ap, ◌∙◌, subst, ◌≢◌, true, false, Option, none,
  some, List, [], ◌∷◌, ◌++◌, ok, is_some, str_eq, Bool-cases, inl, inr,
}
use codex_work_scheduler.Common.Ensures.{
  Ensures, Ensures-bind, Ensures-then, Ensures-guard, Ensures-ok, Ensures-eq, Ensures-map,
  Ensures-if,
}
use codex_work_scheduler.Contracts.{Approval, Package, Job}
use codex_work_scheduler.Json.{Value}
use codex_work_scheduler.Validation.Fields.{text, validate_identifier}
use codex_work_scheduler.Validation.Packages.{validate_work_package}
use codex_work_scheduler.Validation.Approvals.{validate_approval, require_approval}
use codex_work_scheduler.Validation.Current.{IsCurrent, validate_approval-IsCurrent}
use codex_work_scheduler.Store.Tables.{Db, ProposalRow, ProposalState, Reply, Request, Digest}
use codex_work_scheduler.Store.Idempotency.{replay_idempotent}
use codex_work_scheduler.Service.{
  Config, Paths, require_capability, checked_actor, is_used, resolve_workspace_cwd,
}
use codex_work_scheduler.Service.Encode.{package_value}
use codex_work_scheduler.Service.Rows.{
  find_job, find_proposal, insert_job, new_job, proposal_or, get_proposal, is_proposed,
  approve_proposal,
}
use codex_work_scheduler.Service.Queue.{
  package_hash_of, job_hash, approve, queue_approve, queue_approve_new,
}
use codex_work_scheduler.Service.Once.{
  Outcome, Executed, Consumed, Appended, insert_approval-Ensures, append_audit-Ensures,
  execute_idempotent-Ensures, replay_or-Ensures,
}

find_proposal-here :
    (now : ℕ) (job_id : String) (row : ProposalRow) (rows : List ProposalRow)
    → str_eq row.job_id job_id ≡ true
    → find_proposal job_id (approve_proposal now job_id (row ∷ rows))
      ≡ some
          (record row { state = ProposalState.approved; approved_at = some now; updated_at = now })
find_proposal-here now job_id row rows e = rw (e, e)

find_proposal-there :
    (now : ℕ) (job_id : String) (row : ProposalRow) (rows : List ProposalRow)
    → str_eq row.job_id job_id ≡ false
    → find_proposal job_id (approve_proposal now job_id (row ∷ rows))
      ≡ find_proposal job_id (approve_proposal now job_id rows)
find_proposal-there now job_id row rows e = rw (e, e)

-- A proposal that was approved is not proposed any more.
find_proposal-approved :
    (now : ℕ) (job_id : String) (rows : List ProposalRow) {row : ProposalRow}
    → find_proposal job_id (approve_proposal now job_id rows) ≡ some row
    → is_proposed row.state ≡ false
find_proposal-approved now job_id [] h = cc
find_proposal-approved now job_id (r ∷ rows) {row} h = elim (Bool-cases (str_eq r.job_id job_id)) [
  | inl same ↦
      let found = find_proposal-here now job_id r rows same in
      let written : record r {
        state = ProposalState.approved;
        approved_at = some now;
        updated_at = now;
      }
          ≡ row =
        cc in
      ap (λ (x : ProposalRow). is_proposed x.state) (sym written)
  | inr other ↦
      find_proposal-approved now job_id rows (sym (find_proposal-there now job_id r rows other) ∙ h)
]

-- A job that is inserted was not there before, and only the jobs change.
abbrev Inserted : Job → String → String → ℕ → Db → Db → Type 0
Inserted job manifest_hash approval_id now db db' =
    (is_some (find_job job.job_id db.jobs) ≡ false)
    × (db' ≡ record db { jobs = db.jobs ++ new_job job manifest_hash approval_id now ∷ [] })

insert_job-Ensures :
    (job : Job) (manifest_hash approval_id : String) (now : ℕ) (db : Db)
    → Ensures
        (Inserted job manifest_hash approval_id now db)
        (insert_job job manifest_hash approval_id now db)
unfolding insert_job
insert_job-Ensures job manifest_hash approval_id now db =
    Ensures-if (Inserted job manifest_hash approval_id now db)
      (is_some (find_job job.job_id db.jobs)) _ _ (λ used. tt) λ unused. (unused, refl)

validate_identifier-text :
    (job_id : String) {identifier : String}
    → validate_identifier (Value.str job_id) ≡ ok identifier
    → identifier ≡ job_id
unfolding validate_identifier text
validate_identifier-text job_id e = ground arith

find_proposal-job_id :
    (job_id : String) (rows : List ProposalRow) {row : ProposalRow}
    → find_proposal job_id rows ≡ some row
    → row.job_id ≡ job_id
find_proposal-job_id job_id [] h = cc
find_proposal-job_id job_id (r ∷ rows) {row} h = elim (Bool-cases (str_eq r.job_id job_id)) [
  | inl same ↦
      let kept : some r ≡ some row = rw same at h in
      let first : r ≡ row = cc in
      subst (λ (x : ProposalRow). x.job_id ≡ job_id) first (str_eq_sound r.job_id job_id same)
  | inr other ↦ find_proposal-job_id job_id rows {row = row} (rw other at h)
]

proposal_or-some :
    (error : String) (found : Option ProposalRow) {row : ProposalRow}
    → proposal_or error found ≡ ok row
    → found ≡ some row
proposal_or-some error none e = cc
proposal_or-some error (some x) e = cc

module _ ⦃digest : Digest⦄ where
  -- The work package is that of the proposal of the job in these tables: what its stored value reads
  -- as, with the stored hash.
  abbrev pub IsProposal : String → Package → Db → Type 0
  IsProposal job_id work_package seen =
      (proposal : ProposalRow) × (find_proposal job_id seen.proposals ≡ some proposal)
      × (proposal.job_id ≡ job_id)
      × (validate_work_package (package_value proposal.work_package) ≡ ok work_package)
      × (package_hash_of work_package ≡ proposal.package_hash)

  get_proposal-found :
      (job_id identifier : String) (seen : Db) {proposal : ProposalRow}
      → validate_identifier (Value.str job_id) ≡ ok identifier
      → get_proposal identifier seen ≡ ok proposal
      → find_proposal job_id seen.proposals ≡ some proposal
  unfolding get_proposal
  get_proposal-found job_id identifier seen valid e =
      ap (λ id. find_proposal id seen.proposals) (sym (validate_identifier-text job_id valid))
      ∙ proposal_or-some "PROPOSAL_NOT_FOUND" _ e

  -- What holds after the approval of a proposal.
  abbrev pub Approved : String → Package → Approval → Db → ℕ → Outcome
  Approved job_id work_package approval db now = λ (reply, db').
      ((row : ProposalRow) × (find_proposal job_id db.proposals ≡ some row)
        × (is_proposed row.state ≡ true))
      × (is_used approval.approval_id db.approvals ≡ false)
      × (is_some (find_job work_package.job.job_id db.jobs) ≡ false)
      × (db'.jobs
          ≡ db.jobs
            ++ new_job work_package.job (job_hash work_package.job) approval.approval_id now ∷ [])
      × (db'.approvals ≡ db.approvals ++ approval ∷ [])
      × (db'.proposals ≡ approve_proposal now job_id db.proposals)

  proposal_or-Ensures :
      (error : String) (found : Option ProposalRow)
      → Ensures (λ row. found ≡ some row) (proposal_or error found)
  proposal_or-Ensures error none = tt
  proposal_or-Ensures error (some row) = refl

  approve-Ensures :
      (job_id package_hash : String) (work_package : Package) (approval : Approval) (actor : String)
      (now : ℕ) (event_id : String) (db : Db)
      → Ensures
          (Approved job_id work_package approval db now)
          (approve job_id package_hash work_package approval actor now event_id db)
  unfolding approve
  approve-Ensures job_id package_hash work_package approval actor now event_id db =
      let P = Approved job_id work_package approval db now in
      let job = work_package.job in
      Ensures-bind (λ row. find_proposal job_id db.proposals ≡ some row) P _ _
        (proposal_or-Ensures "PROPOSAL_NOT_FOUND" (find_proposal job_id db.proposals))
        λ row found. Ensures-guard P (is_proposed row.state) "INVALID_TRANSITION" _ λ proposed.
          Ensures-bind (Consumed approval db) P _ _ (insert_approval-Ensures approval db)
            λ db₁ (unused, same₁).
              Ensures-bind (Inserted job (job_hash job) approval.approval_id now db₁) P _ _
                (insert_job-Ensures job (job_hash job) approval.approval_id now db₁)
                λ db₂ (absent, same₂).
                  Ensures-bind
                    (Appended
                      (record db₂ { proposals = approve_proposal now job_id db₂.proposals }))
                    P _ _ (append_audit-Ensures event_id _ _ _ now _)
                    λ (id, db₃) same₃.
                      let done : P (Reply.approved approval.approval_id id job_id, db₃) = (
                        (row, found, proposed),
                        unused,
                        subst (λ (d : Db). is_some (find_job job.job_id d.jobs) ≡ false) same₁
                            absent,
                        ap (λ (d : Db). d.jobs) same₃
                            ∙ ap (λ (d : Db). d.jobs) same₂
                            ∙ ap
                                (λ (d : Db).
                                  d.jobs
                                  ++ new_job job (job_hash job) approval.approval_id now ∷ [])
                                same₁,
                        ap (λ (d : Db). d.approvals) same₃
                            ∙ ap (λ (d : Db). d.approvals) same₂
                            ∙ ap (λ (d : Db). d.approvals) same₁,
                        ap (λ (d : Db). d.proposals) same₃
                            ∙ ap (λ (d : Db). approve_proposal now job_id d.proposals) same₂
                            ∙ ap (λ (d : Db). approve_proposal now job_id d.proposals) same₁,
                      ) in
                      done

  abbrev ApprovedOnce : String → Db → Db → ℕ → Outcome
  ApprovedOnce job_id seen db now = λ reply.
      (work_package : Package) × (approval : Approval) × IsProposal job_id work_package seen
      × IsCurrent approval now
      × (require_approval approval "queue.approve" (package_hash_of work_package) "work.dispatch"
          ≡ ok tt)
      × Approved job_id work_package approval db now reply

  queue_approve_new-Ensures :
      (job_id package_hash : String) (work_package : Package) (approval_value : Value)
      (old : Approval) (key actor : String) (now : ℕ) (event_id : String) (seen db : Db)
      → package_hash_of work_package ≡ package_hash
      → IsProposal job_id work_package seen
      → Ensures (Executed (ApprovedOnce job_id seen db now)) (
          queue_approve_new job_id package_hash work_package approval_value old key actor now
            event_id db)
  unfolding queue_approve_new
  queue_approve_new-Ensures job_id package_hash work_package approval_value old key actor now
        event_id seen db hashed proposed =
      let Q = ApprovedOnce job_id seen db now in
      Ensures-eq (Executed Q) (validate_approval approval_value now false) _ λ approval valid.
        Ensures-eq (Executed Q)
          (require_approval approval "queue.approve" package_hash "work.dispatch") _
          λ u covers.
            let current = validate_approval-IsCurrent approval_value now valid in
            execute_idempotent-Ensures Q (λ reply db rows q. q) key "queue.approve" _ now
              (approve job_id package_hash work_package approval actor now event_id) db
              (Ensures-map (Approved job_id work_package approval db now) Q _
                (λ reply approved. (
                  work_package,
                  approval,
                  proposed,
                  current,
                  ap (λ hash. require_approval approval "queue.approve" hash "work.dispatch") hashed
                      ∙ covers,
                  approved,
                ))
                (approve-Ensures job_id package_hash work_package approval actor now event_id db))

  -- An approval that is no replay has read, before its transaction, the proposal of the job, whose
  -- work package is valid and has the stored hash. The transaction finds a proposal of the job in
  -- the state `proposed` and no job of the package's identifier, consumes an approval that is in
  -- force, covers the hash of that package and was not consumed before, queues the job of that very
  -- package and marks the proposal as approved.
  pub queue_approve-Approved :
      (config : Config) (paths : Paths) (job_id : String) (approval_value : Value)
      (key actor : String) (now : ℕ) (event_id : String) (seen db : Db) {reply : Reply} {db' : Db}
      → queue_approve config paths job_id approval_value key actor now event_id seen db
        ≡ ok ((reply, false), db')
      → (work_package : Package) × (approval : Approval) × IsProposal job_id work_package seen
        × IsCurrent approval now
        × (require_approval approval "queue.approve" (package_hash_of work_package) "work.dispatch"
            ≡ ok tt)
        × Approved job_id work_package approval db now (reply, db')
  unfolding queue_approve
  queue_approve-Approved config paths job_id approval_value key actor now event_id seen db e =
      let Q = ApprovedOnce job_id seen db now in
      let E = Executed Q in
      Ensures-ok E _
        (Ensures-then E (require_capability config "queue.local.write") _ λ _.
          Ensures-then E (checked_actor actor) _ λ name.
            Ensures-eq E (validate_identifier (Value.str job_id)) _ λ identifier valid.
              Ensures-eq E (get_proposal identifier seen) _ λ proposal read.
                Ensures-eq E (validate_work_package (package_value proposal.work_package)) _
                  λ work_package parsed.
                    Ensures-guard E (str_eq (package_hash_of work_package) proposal.package_hash)
                      "STATE_INVALID" _
                      λ hashed.
                        let found = get_proposal-found job_id identifier seen valid read in
                        let same_hash = str_eq_sound _ _ hashed in
                        Ensures-then E
                          (resolve_workspace_cwd config paths work_package.execution.cwd) _
                          λ cwd. Ensures-then E (validate_approval approval_value now true) _ λ old.
                            Ensures-then E
                              (replay_idempotent key "queue.approve"
                                (Request.approve old job_id proposal.package_hash) seen)
                              _
                              λ stored.
                                replay_or-Ensures Q stored
                                  (queue_approve_new job_id proposal.package_hash work_package
                                    approval_value old key name now event_id)
                                  db
                                  (queue_approve_new-Ensures job_id proposal.package_hash
                                    work_package approval_value old key name now event_id seen db
                                    same_hash
                                    (
                                      proposal,
                                      found,
                                      find_proposal-job_id job_id seen.proposals found,
                                      parsed,
                                      same_hash,
                                    )))
        e refl

  -- A proposal is approved at most once: on the tables after an approval no approval of the same
  -- proposal succeeds, but as a replay, whichever key, approval, time and tables it uses.
  pub queue_approve-once :
      (config : Config) (paths : Paths) (job_id : String) (approval_value approval_value' : Value)
      (key key' actor actor' : String) (now now' : ℕ) (event_id event_id' : String)
      (seen seen' db : Db) {reply reply' : Reply} {db' db'' : Db}
      → queue_approve config paths job_id approval_value key actor now event_id seen db
        ≡ ok ((reply, false), db')
      → queue_approve config paths job_id approval_value' key' actor' now' event_id' seen' db'
        ≢ ok ((reply', false), db'')
  queue_approve-once config paths job_id approval_value approval_value' key key' actor actor' now
        now' event_id event_id' seen seen' db {db'} e e' =
      let (_, _, _, _, _, (_, _, _, _, _, written)) =
        queue_approve-Approved config paths job_id approval_value key actor now event_id seen db
          e in
      let (_, _, _, _, _, ((row, found, proposed), _, _, _, _, _)) =
        queue_approve-Approved config paths job_id approval_value' key' actor' now' event_id' seen'
          db' e' in
      let held =
        find_proposal-approved now job_id db.proposals
          (ap (find_proposal job_id) (sym written) ∙ found) in
      cc
