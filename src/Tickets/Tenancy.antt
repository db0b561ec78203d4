-- ===== src/Tickets/Tenancy.antt =====
-- Whom the operations of src/server/tickets/ticket.service.ts let act on a ticket.
use filazero_local.Base.{
  ℕ, ◌<◌, ◌≡◌, ap, ◌∙◌, ◌≢◌, ◌⊎◌, Bool, true, some, inl, inr, arith, count_if,
}
use filazero_local.Errors.{Result, ok, err, ErrorCode, Result-cases}
use filazero_local.Access.Rbac.{Permission, UserRole, can}
use filazero_local.Access.Context.{AuthContext, require_permission, assert_branch_access}
use filazero_local.Access.TenantLaws.{reaches, access_counted}
use filazero_local.Database.{Db, Ticket, Queue}
use filazero_local.Tickets.State.{is_in_progress, assert_ticket_transition, can_transition_ticket}
use filazero_local.Tickets.Writes.{check_staff, load_ticket}
use filazero_local.Tickets.Staff.{
  owns, check_cancel, check_leave, call_next, recall_ticket, start_serving, complete_service,
  mark_no_show, cancel_ticket, leave_queue, as_cancelled,
}
use filazero_local.Tickets.Transfer.{transfer_ticket}
use filazero_local.Tickets.Results.{
  Loaded, call_next-result, recall_ticket-result, start_serving-result, complete_service-result,
  mark_no_show-result, cancel_ticket-result, leave_queue-result,
}
use filazero_local.Tickets.EntryResults.{transfer_ticket-result}

-- The caller is staff of the queue's branch: a role with the permission, no platform administrator,
-- and an active membership of the queue's organization that reaches its branch.
abbrev pub IsStaffOf : AuthContext → Permission → Queue → Type 0
IsStaffOf ctx p row =
    (can ctx.role p ≡ true)
    × (ctx.role ≢ UserRole.administrator)
    × (0 < count_if (reaches row.organization_id row.branch_id) ctx.memberships)

pub check_staff-IsStaffOf :
    (ctx : AuthContext) (p : Permission) (row : Queue)
    → check_staff ctx p row ≡ ok tt
    → IsStaffOf ctx p row
unfolding check_staff require_permission
check_staff-IsStaffOf ctx p row h =
    let branch : assert_branch_access ctx row.organization_id row.branch_id ≡ ok tt =
      ground arith in
    let (role, member) = (access_counted ctx row.organization_id row.branch_id).0 branch in
    (ground arith, role, member)

-- The queue that the ticket with this id stands in.
abbrev pub StandsIn : ℕ → Db → Queue → Type 0
StandsIn id db row = (t : Ticket) × Loaded id db t row

-- Who may end a ticket early: its owner, or staff of the branch with the right to cancel.
abbrev pub MayEnd : AuthContext → ℕ → Db → Type 0
MayEnd ctx id db =
    (t : Ticket) × (row : Queue) × Loaded id db t row
    × ((owns ctx t ≡ true) ⊎ IsStaffOf ctx Permission.ticket_cancel row)

-- A call that only staff may make.
pub data StaffCall : Type 0 where
  calls_next : (locked : ℕ → Bool) (queue : ℕ) → StaffCall
  recalls starts completes misses : (ticket : ℕ) → StaffCall
  transfers : (ticket target : ℕ) → StaffCall

abbrev pub answer_to : StaffCall → AuthContext → ℕ → Db → Result (Ticket × Db)
answer_to (calls_next locked queue) ctx now db = call_next locked ctx queue now db
answer_to (recalls id) ctx now db = recall_ticket ctx id now db
answer_to (starts id) ctx now db = start_serving ctx id now db
answer_to (completes id) ctx now db = complete_service ctx id now db
answer_to (misses id) ctx now db = mark_no_show ctx id now db
answer_to (transfers id target) ctx now db = transfer_ticket ctx id target now db

-- The right that each call needs.
abbrev pub right_for : StaffCall → Permission
right_for (calls_next locked queue) = Permission.ticket_call
right_for (recalls id) = Permission.ticket_call
right_for (starts id) = Permission.ticket_serve
right_for (completes id) = Permission.ticket_complete
right_for (misses id) = Permission.ticket_cancel
right_for (transfers id target) = Permission.ticket_call

-- The queue that a call is about: the one named, or the one that the ticket named stands in.
abbrev pub IsAbout : StaffCall → Db → Queue → Type 0
IsAbout (calls_next locked queue) db row = db.queues queue ≡ some row
IsAbout (recalls id) db row = StandsIn id db row
IsAbout (starts id) db row = StandsIn id db row
IsAbout (completes id) db row = StandsIn id db row
IsAbout (misses id) db row = StandsIn id db row
IsAbout (transfers id target) db row = StandsIn id db row

-- A staff call that succeeds was made by staff of the branch of the queue that it is about, with
-- the right that the call needs.
pub staff_calls_stay_in_tenant :
    (call : StaffCall) (ctx : AuthContext) (now : ℕ) (db : Db) (r : Ticket × Db)
    → answer_to call ctx now db ≡ ok r
    → (row : Queue) × IsAbout call db row × IsStaffOf ctx (right_for call) row
staff_calls_stay_in_tenant (calls_next locked q) ctx now db r h =
    let (_, row, e, s, _, _, _) = call_next-result locked ctx q now db r h in
    (row, e, check_staff-IsStaffOf ctx Permission.ticket_call row s)
staff_calls_stay_in_tenant (recalls id) ctx now db r h =
    let (t, row, l, s, _, _) = recall_ticket-result ctx id now db r h in
    (row, (t, l), check_staff-IsStaffOf ctx Permission.ticket_call row s)
staff_calls_stay_in_tenant (starts id) ctx now db r h =
    let (t, row, l, s, _, _) = start_serving-result ctx id now db r h in
    (row, (t, l), check_staff-IsStaffOf ctx Permission.ticket_serve row s)
staff_calls_stay_in_tenant (completes id) ctx now db r h =
    let (t, row, l, s, _, _) = complete_service-result ctx id now db r h in
    (row, (t, l), check_staff-IsStaffOf ctx Permission.ticket_complete row s)
staff_calls_stay_in_tenant (misses id) ctx now db r h =
    let (t, row, l, s, _, _) = mark_no_show-result ctx id now db r h in
    (row, (t, l), check_staff-IsStaffOf ctx Permission.ticket_cancel row s)
staff_calls_stay_in_tenant (transfers id target) ctx now db r h =
    let (t, row, _, _, l, s, _, _, _, _, _, _, _) =
      transfer_ticket-result ctx id target now db r h in
    (row, (t, l), check_staff-IsStaffOf ctx Permission.ticket_call row s)

-- A ticket is cancelled or left only by its owner, or by staff of the branch of its queue with the
-- right to cancel.
pub ended_by_owner_or_staff :
    (ctx : AuthContext) (id now : ℕ) (db : Db) (r : Ticket × Db)
    → (cancel_ticket ctx id now db ≡ ok r) ⊎ (leave_queue ctx id now db ≡ ok r)
    → MayEnd ctx id db
unfolding check_cancel check_leave
ended_by_owner_or_staff ctx id now db r = by_either
  where
    ended :
        (t : Ticket) (row : Queue)
        → (owns ctx t ≡ true) ⊎ (check_staff ctx Permission.ticket_cancel row ≡ ok tt)
        → (owns ctx t ≡ true) ⊎ IsStaffOf ctx Permission.ticket_cancel row
    ended t row (inl o) = inl o
    ended t row (inr s) = inr (check_staff-IsStaffOf ctx Permission.ticket_cancel row s)

    by_either :
        (cancel_ticket ctx id now db ≡ ok r) ⊎ (leave_queue ctx id now db ≡ ok r) → MayEnd ctx id db
    by_either (inl h) =
        let (t, row, l, s, _, _) = cancel_ticket-result ctx id now db r h in
        (t, row, l, ended t row (ground arith))
    by_either (inr h) =
        let (t, row, l, s, _, _) = leave_queue-result ctx id now db r h in
        (t, row, l, ended t row (ground arith))

-- The owner of a ticket that is being handled may leave the queue although he may not cancel:
-- whenever the ticket is called or in service, `leaveQueue` cancels it, and `cancelTicket` refuses
-- with FORBIDDEN.
pub leave_queue-in_progress :
    (ctx : AuthContext) (id now : ℕ) (db : Db) (t : Ticket) (row : Queue)
    → Loaded id db t row
    → owns ctx t ≡ true
    → can ctx.role Permission.ticket_leave_self ≡ true
    → is_in_progress t.status ≡ true
    → ((db' : Db) × (leave_queue ctx id now db ≡ ok (as_cancelled now t, db')))
      × (cancel_ticket ctx id now db ≡ err ErrorCode.forbidden)
unfolding leave_queue cancel_ticket load_ticket check_leave check_cancel require_permission
    assert_ticket_transition can_transition_ticket
leave_queue-in_progress ctx id now db t row (found, queue) own role p = (
  elim (Result-cases (leave_queue ctx id now db)) [
    | inl (f, no_result) ↦ absurd (ground arith)
    | inr (r, result) ↦
        let (u, _, (found', _), _, _, k) = leave_queue-result ctx id now db r result in
        let same : u ≡ t = ground arith in
        (r.1, result ∙ ap ok (ap (λ x. (x.0, r.1)) k ∙ ap (λ v. (as_cancelled now v, r.1)) same))
  ],
  ground arith,
)
