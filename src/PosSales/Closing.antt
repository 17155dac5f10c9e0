-- ===== src/PosSales/Closing.antt =====
-- What a shift is closed against (`ShiftService.close`).
use merchant_operations_plat.Prelude.{
  ◌≡◌, ◌≢◌, ◌⊎◌, inl, inr, refl, ap, subst, List, false, ◌∙◌, true, Option, none, some, Text, ok,
  find, arith, ◌==◌, Bool-cases, Option-cases, Result-cases,
}
use merchant_operations_plat.Prelude.Int.{ℤ, pos, ◌+ℤ◌, ◌-ℤ◌, ◌==ℤ◌, ==ℤ_iff, int_laws}
use merchant_operations_plat.Database.{Db, RegisterSession, SessionStatus}
use merchant_operations_plat.Database.Tables.{
  Pairwise, update_many, count_where, count_where-update_many, update_many-Pairwise_each,
}
use merchant_operations_plat.Billing.{MutationContext}
use merchant_operations_plat.Billing.Service.Refund.{cash_received_in_session}
use merchant_operations_plat.PosSales.RegisterSession.{total_cash, cash_variance, decide_close}
use merchant_operations_plat.PosSales.RegisterSession.Totals.{net, total_cash_lem}
use merchant_operations_plat.PosSales.Shifts.{
  session_by_id, is_open_by_id, CloseFacts, as_closed, close_transaction, close_session,
}
use merchant_operations_plat.PosSales.ShiftService.{is_given, decide_locked}

abbrev expected_of : RegisterSession → Db → ℤ
expected_of s db =
    (total_cash s.opening_cash_minor s.movements (cash_received_in_session s.tenant_id s.id db)
      (pos 0)).expected_cash_minor

-- The facts of a close: the count, what the drawer should hold, their difference, and a reason
-- exactly where there is a difference.
abbrev Explains : ℤ → ℤ → Option Text → CloseFacts → Type 0
Explains counted expected reason facts =
    (facts.counted_cash_minor ≡ counted)
    × (facts.expected_cash_minor ≡ expected)
    × (expected +ℤ facts.variance_minor ≡ counted)
    × (facts.variance_minor ≢ pos 0 → (facts.variance_reason ≡ reason) × (is_given reason ≡ true))
    × (facts.variance_minor ≡ pos 0 → facts.variance_reason ≡ none)

decide_locked-Explains :
    (counted : ℤ) (reason : Option Text) (locked : RegisterSession) (db : Db) {facts : CloseFacts}
    {db' : Db}
    → decide_locked counted reason locked db ≡ (ok facts, db')
    → Explains counted (expected_of locked db) reason facts × (db' ≡ db)
unfolding decide_locked decide_close cash_variance
decide_locked-Explains counted reason locked db {facts} {db'} e =
    elim (Bool-cases (counted -ℤ expected_of locked db ==ℤ pos 0)) [
      | inl even ↦ grind (int_laws, ==ℤ_iff)
      | inr odd ↦ grind (int_laws, ==ℤ_iff)
    ]

-- What a close writes, the shift itself being `s` in `db`.
abbrev Wrote : RegisterSession → ℤ → Option Text → MutationContext → Db → Db → Type 0
Wrote session counted reason context db db' =
    (s : RegisterSession) × (facts : CloseFacts) × (find
        (session_by_id session.tenant_id session.id) db.register_sessions
      ≡ some s)
    × Explains counted (expected_of s db) reason facts
    × (db'.register_sessions
        ≡ update_many (is_open_by_id session.tenant_id session.id) (as_closed facts context)
            db.register_sessions)

-- A shift that is not the one that is closed stays as it is; that one was open, and it is closed,
-- with who did it and when, the count, what the drawer should hold, their difference, and a reason
-- exactly where there is a difference.
abbrev pub Closed :
    RegisterSession
    → ℤ
    → ℤ
    → Option Text
    → MutationContext
    → RegisterSession
    → RegisterSession
    → Type 0
Closed session counted expected reason context s s' =
    (is_open_by_id session.tenant_id session.id s ≡ false) × (s' ≡ s)
    ⊎ (s.id ≡ session.id)
      × (s'.id ≡ session.id)
      × (s'.status ≡ SessionStatus.closed)
      × (s'.closed_at ≡ some context.now)
      × (s'.closed_by ≡ some context.actor_id)
      × (s'.opening_cash_minor ≡ s.opening_cash_minor)
      × (s'.movements ≡ s.movements)
      × (s'.counted_cash_minor ≡ some counted)
      × (s'.expected_cash_minor ≡ some expected)
      × ((variance : ℤ) × (s'.variance_minor ≡ some variance)
          × (expected +ℤ variance ≡ counted)
          × (variance ≢ pos 0 → (s'.variance_reason ≡ reason) × (is_given reason ≡ true))
          × (variance ≡ pos 0 → s'.variance_reason ≡ none))

update_many-Closed :
    (session : RegisterSession) (counted expected : ℤ) (reason : Option Text)
    (context : MutationContext) (facts : CloseFacts) (rows : List RegisterSession)
    → Explains counted expected reason facts
    → Pairwise
        (Closed session counted expected reason context)
        rows
        (update_many (is_open_by_id session.tenant_id session.id) (as_closed facts context) rows)
update_many-Closed session counted expected reason context facts rows (c, e, sum, odd, even) =
    update_many-Pairwise_each (is_open_by_id session.tenant_id session.id) (as_closed facts context)
      (Closed session counted expected reason context) rows
      (λ s h. inr (
        ground arith,
        ground arith,
        refl,
        refl,
        refl,
        refl,
        refl,
        ap some c,
        ap some e,
        (facts.variance_minor, refl, sum, odd, even),
      ))
      (λ s h. inl (h, refl))

-- What the drawer should hold: the opening cash, the cash received less what was refunded, and what
-- the movements put in less what they took out.
abbrev pub drawer_of : RegisterSession → Db → ℤ
drawer_of s db =
    s.opening_cash_minor +ℤ cash_received_in_session s.tenant_id s.id db +ℤ net s.movements

drawer_lem : (s : RegisterSession) (db : Db) → expected_of s db ≡ drawer_of s db
drawer_lem s db =
    let e =
      (total_cash_lem s.opening_cash_minor (cash_received_in_session s.tenant_id s.id db) (pos 0)
        s.movements).0 in
    grind (int_laws, e)

-- What a close does to the shifts, the shift itself being `s` in `db`.
abbrev pub ClosedNow : RegisterSession → ℤ → Option Text → MutationContext → Db → Db → Type 0
ClosedNow session counted reason context db db' =
    (s : RegisterSession) × (find (session_by_id session.tenant_id session.id) db.register_sessions
      ≡ some s)
    × Pairwise (Closed session counted (drawer_of s db) reason context) db.register_sessions
        db'.register_sessions

close_transaction-Wrote :
    (session : RegisterSession) (counted : ℤ) (reason : Option Text) (context : MutationContext)
    (db : Db) {row : RegisterSession} {db' : Db}
    → close_transaction session (decide_locked counted reason) context db ≡ (ok row, db')
    → Wrote session counted reason context db db' ⊎ (db' ≡ db)
unfolding close_transaction
close_transaction-Wrote session counted reason context db {row} {db'} e =
    let key = session_by_id session.tenant_id session.id in
    let live = is_open_by_id session.tenant_id session.id in
    elim (Bool-cases (count_where live db.register_sessions == 1)) [
      | inr shut ↦ elim (Option-cases (find key db.register_sessions)) [
        | inl n ↦ absurd (ground arith)
        | inr (x, f) ↦ inr (ground arith)
      ]
      | inl on ↦ elim (Option-cases (find key db.register_sessions)) [
        | inl n ↦ absurd (ground arith)
        | inr (s, f) ↦ elim (Result-cases (decide_locked counted reason s db).0) [
          | inr (fault, g) ↦ absurd (ground arith)
          | inl (facts, g) ↦
              let decided : decide_locked counted reason s db
                  ≡ (ok facts, (decide_locked counted reason s db).1) =
                ground arith in
              let (why, same) = decide_locked-Explains counted reason s db decided in
              elim (Option-cases
                (find key (update_many live (as_closed facts context) db.register_sessions))) [
                  | inl n ↦ absurd (ground arith)
                  | inr (y, h) ↦ inl (s, facts, f, why, ground arith)
                ]
        ]
      ]
    ]

-- A close writes nothing, or it closes the shift against the cash its drawer should hold under the
-- lock, with a reason exactly where the count differs; then no open shift is left under its id.
pub close_session-ClosedNow :
    (session : RegisterSession) (counted : ℤ) (reason : Option Text) (context : MutationContext)
    (db : Db)
    → let db' = (close_session session (decide_locked counted reason) context db).1 in
      ClosedNow session counted reason context db db'
        × (count_where (is_open_by_id session.tenant_id session.id) db'.register_sessions ≡ 0)
      ⊎ (db' ≡ db)
unfolding close_session
close_session-ClosedNow session counted reason context db =
    let live = is_open_by_id session.tenant_id session.id in
    elim (Result-cases (close_transaction session (decide_locked counted reason) context db).0) [
      | inr (fault, g) ↦ inr (ground arith)
      | inl (row, g) ↦
          let last = (close_transaction session (decide_locked counted reason) context db).1 in
          let done : close_transaction session (decide_locked counted reason) context db
              ≡ (ok row, last) =
            ground arith in
          let final : (close_session session (decide_locked counted reason) context db).1 ≡ last =
            ground arith in
          elim (close_transaction-Wrote session counted reason context db done) [
            | inr same ↦ inr (final ∙ same)
            | inl (s, facts, f, why, wrote) ↦ inl (
                rw final (
                  (
                    s,
                    f,
                    rw wrote (
                        update_many-Closed session counted (drawer_of s db) reason context facts
                          db.register_sessions
                          (subst (λ x. Explains counted x reason facts) (drawer_lem s db) why)),
                  ),
                  ap (count_where live) wrote
                      ∙ count_where-update_many live (as_closed facts context) db.register_sessions
                          (λ x h. ground arith),
                ))
          ]
    ]
