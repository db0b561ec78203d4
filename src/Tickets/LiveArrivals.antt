-- ===== src/Tickets/LiveArrivals.antt =====
-- A ticket that joins or is transferred leaves the right positions in the cache.
use filazero_local.Base.{
  ℕ, ◌+◌, ◌≤◌, ◌≡◌, refl, sym, ap, subst, ◌∙◌, true, false, Option, none, some, List, [], ◌∷◌, ◌++◌,
  inl, inr, ◌⊎◌, arith, ◌==◌, ==_iff, count_if, count_if-append, count_if-In, Text, find, In,
  modify_where, Bool-cases,
}
use filazero_local.Errors.{ok}
use filazero_local.Access.Context.{AuthContext}
use filazero_local.Database.{Db, Ticket, Queue, publish_queue_event, record_audit}
use filazero_local.Tickets.Rows.{
  has_id, has_number, waits_in, before, ahead_of, compute_live_position,
}
use filazero_local.Tickets.Positions.{recompute_positions}
use filazero_local.Tickets.Writes.{insert_ticket, replace_ticket}
use filazero_local.Tickets.Join.{
  draw_number, new_ticket, guest_name_of, join_queue, join_queue_as_guest,
}
use filazero_local.Tickets.Transfer.{as_transferred, clear_pointer_of, transfer_ticket}
use filazero_local.Tickets.Frame.{renumbered, count_if-renumbered}
use filazero_local.Tickets.Invariant.{Consistent, sequence_of}
use filazero_local.Tickets.EntryResults.{
  join_queue-result, join_queue_as_guest-result, transfer_ticket-result,
}
use filazero_local.Tickets.Effects.{recompute-HasRows}
use filazero_local.Tickets.Preserve.{own_id}
use filazero_local.Tickets.Moves.{transfer-Consistent}
use filazero_local.Tickets.Live.{
  CacheIsLive, Keyed, renumbered-CacheIsLive, renumbered-CacheIsLive_other, written-CacheIsLive,
}
use filazero_local.Tickets.LiveSteps.{AllLive, announced-live, live_of_rows}

-- Nobody in the table joined after `now`.
abbrev pub JoinedBy : ℕ → Db → Type 0
JoinedBy now db = (u : Ticket) → In u db.tickets → u.joined_at ≤ now

In-append : (ts : List Ticket) (t u : Ticket) → In u (ts ++ t ∷ []) → In u ts ⊎ (t ≡ u)
In-append [] t u (inl e) = inr e
In-append [] t u (inr i) = absurd i
In-append (x ∷ xs) t u (inl e) = inl (inl e)
In-append (x ∷ xs) t u (inr i) = elim (In-append xs t u i) [ inl j ↦ inl (inr j) | inr e ↦ inr e ]

-- All who wait in the queue are ahead of a newcomer.
everyone_ahead :
    (t : Ticket) (ts : List Ticket)
    → ((u : Ticket) → In u ts → waits_in t.queue_id u ≡ true → before u t ≡ true)
    → count_if (ahead_of t) ts ≡ count_if (waits_in t.queue_id) ts
everyone_ahead t [] h = refl
everyone_ahead t (u ∷ us) h =
    let rest = everyone_ahead t us (λ v i. h v (inr i)) in ground (arith, h u (inl refl))

-- A newcomer at the end of the line, with its place as its position.
append-live :
    (ts : List Ticket) (t : Ticket)
    → t.position ≡ some (count_if (waits_in t.queue_id) ts + 1)
    → ((u : Ticket) → In u ts → waits_in t.queue_id u ≡ true → before u t ≡ true)
    → ((k : ℕ) → CacheIsLive k ts)
    → (k : ℕ) → CacheIsLive k (ts ++ t ∷ [])
unfolding compute_live_position
append-live ts t p last live k u i w = elim (In-append ts t u i) [
  | inl j ↦
      let counts = count_if-append (ahead_of u) ts (t ∷ []) in
      let behind = last u j in live k u j w ∙ ap some (ground arith)
  | inr e ↦
      subst (λ v. v.position ≡ some (count_if (ahead_of v) (ts ++ t ∷ []) + 1)) e
        (p
          ∙ ap some
              (ground (arith, count_if-append (ahead_of t) ts (t ∷ []), everyone_ahead t ts last)))
]

joined-live :
    (db created : Db) (row : Queue) (t : Ticket)
    → Consistent db
    → db.queues t.queue_id ≡ some row
    → t.ticket_number ≡ row.ticket_sequence + 1
    → t.position ≡ some (count_if (waits_in t.queue_id) db.tickets + 1)
    → JoinedBy t.joined_at db
    → insert_ticket t (draw_number t.queue_id row db) ≡ ok created
    → AllLive db
    → AllLive created
unfolding insert_ticket draw_number
joined-live db created row t c e n p by h live =
    live_of_rows created created.queues (db.tickets ++ t ∷ []) (ground arith, refl)
      (append-live db.tickets t p last live)
  where
    last : (u : Ticket) → In u db.tickets → waits_in t.queue_id u ≡ true → before u t ≡ true
    last u i w =
        let known : sequence_of (db.queues t.queue_id) ≡ row.ticket_sequence = rw e refl in
        ground (
          arith,
          by u i,
          c.issued t.queue_id u.ticket_number,
          count_if-In (has_number t.queue_id u.ticket_number) db.tickets u i,
        )

-- Where the cached positions are right and nobody joined in the future, they are right after a join.
pub join_queue-live :
    (ctx : AuthContext) (q id now : ℕ) (db : Db) (r : Ticket × Db)
    → join_queue ctx q id now db ≡ ok r
    → JoinedBy now db
    → Consistent db
    → AllLive db
    → AllLive r.1
unfolding new_ticket
join_queue-live ctx q id now db r h by c live =
    let (row, created, e, _, _, _, _, _, i, k) = join_queue-result ctx q id now db r h in
    rw k (
      announced-live ctx (some ctx.user_id) _ _ _ _ _ created (
        joined-live db created row (new_ticket id q row (some ctx.user_id) none none now db) c e
          refl refl by i live))

pub join_queue_as_guest-live :
    (q : ℕ) (name phone : Option Text) (id now : ℕ) (db : Db) (r : Ticket × Db)
    → join_queue_as_guest q name phone id now db ≡ ok r
    → JoinedBy now db
    → Consistent db
    → AllLive db
    → AllLive r.1
unfolding new_ticket record_audit publish_queue_event
join_queue_as_guest-live q name phone id now db r h by c live =
    let (row, created, number, _, e, _, _, _, i, k) =
      join_queue_as_guest-result q name phone id now db r h in
    rw k (
      joined-live db created row (new_ticket id q row none (guest_name_of name) number now db) c e
        refl refl by i live)

renumbered-Keyed : (now q : ℕ) (ts : List Ticket) → Keyed ts → Keyed (renumbered now q ts)
renumbered-Keyed now q ts c = (
  (λ i. omega (arith, c.0 i, count_if-renumbered (has_id i) (λ t p a. refl) now q ts)),
  (λ k n. omega (arith, c.1 k n, count_if-renumbered (has_number k n) (λ t p a. refl) now q ts)),
)

-- Both queues of a transfer are renumbered, and no other is touched.
transferred-live :
    (now target : ℕ) (ts : List Ticket) (new t : Ticket)
    → Keyed ts
    → Keyed (modify_where (has_id t.id) (λ _. new) ts)
    → find (has_id t.id) ts ≡ some t
    → new.queue_id ≡ target
    → ((k : ℕ) → CacheIsLive k ts)
    → (k : ℕ)
    → CacheIsLive k (
        renumbered now target
          (renumbered now t.queue_id (modify_where (has_id t.id) (λ _. new) ts)))
transferred-live now target ts new t c c' found home live k = elim (Bool-cases (k == target)) [
  | inl h ↦
      subst (λ x. CacheIsLive x (renumbered now target once)) (sym ((==_iff k target).0 h))
        (renumbered-CacheIsLive once now target keyed)
  | inr h ↦ renumbered-CacheIsLive_other once now target k keyed h (first h)
]
  where
    moved : List Ticket
    moved = modify_where (has_id t.id) (λ _. new) ts

    once : List Ticket
    once = renumbered now t.queue_id moved

    keyed : Keyed once
    keyed = renumbered-Keyed now t.queue_id moved c'

    first : (k == target) ≡ false → CacheIsLive k once
    first h = elim (Bool-cases (k == t.queue_id)) [
      | inl g ↦
          subst (λ x. CacheIsLive x once) (sym ((==_iff k t.queue_id).0 g))
            (renumbered-CacheIsLive moved now t.queue_id c')
      | inr g ↦ renumbered-CacheIsLive_other moved now t.queue_id k c' g (
          written-CacheIsLive ts t.id (λ _. new) t k c found (ground arith) (ground arith) (live k))
    ]

pub transfer_ticket-live :
    (ctx : AuthContext) (id target now : ℕ) (db : Db) (r : Ticket × Db)
    → transfer_ticket ctx id target now db ≡ ok r
    → Consistent db
    → AllLive db
    → AllLive r.1
unfolding replace_ticket draw_number clear_pointer_of
transfer_ticket-live ctx id target now db r h c live =
    let (t, q, row, written, l, _, far, _, e, _, _, i, k) =
      transfer_ticket-result ctx id target now db r h in
    let same = own_id id db.tickets t l.0 in
    let found = subst (λ x. find (has_id x) db.tickets ≡ some t) (sym same) l.0 in
    let new = as_transferred target (row.ticket_sequence + 1) now t in
    let after = transfer-Consistent db written target now t row c found e far i in
    let rows : written.tickets ≡ modify_where (has_id t.id) (λ _. new) db.tickets = ground arith in
    let cleared = clear_pointer_of t.queue_id id written in
    let keys : Keyed written.tickets = (after.ids, after.numbers) in
    let live' =
      transferred-live now target db.tickets new t (c.ids, c.numbers) (rw rows at keys) found refl
        live in
    rw k (
      announced-live ctx t.user_id _ _ _ _ _ _ (
        live_of_rows (recompute_positions now target (recompute_positions now t.queue_id cleared))
          cleared.queues _
          (recompute-HasRows now target (recompute_positions now t.queue_id cleared) cleared.queues
            _ (recompute-HasRows now t.queue_id cleared cleared.queues _ (rows, refl)))
          live'))
