-- ===== src/Engineer/Records.antt =====
-- What a customer reads after an order: customer_record through ScoutBrocasting and
-- CreateCustomerRecord.
use cs.Base.{
  ℕ, zero, suc, ◌≡◌, refl, ◌∙◌, ap, subst, Option, none, some, if◌then◌else◌, arith, ◌⊎◌,
  Bool-cases, inl, inr,
}
use cs.Base.Int.{ℤ, negsuc, eqb_ℤ}
use cs.Engineer.{new_laptop, create_customer_record, create_regular_laptop}
use cs.Map
use cs.Map.{Map, find, find-assign}
use cs.Messages.Command.{Command}
use cs.Messages.CustomerRecord
use cs.Messages.CustomerRecord.{CustomerRecord}
use cs.Messages.CustomerRequest.{CustomerRequest}
use cs.Messages.LaptopInfo.{LaptopInfo}
use cs.Scout.{Net, Scout, Tally, no_tally}
use cs.Scout.Phases.{
  Prepared, running, too_few, promised, Verdict, accepted, full_reject, part_reject, inactive,
  prepare, prepare_round, retry, is_majority, accept_phase, commander, connect_learners,
}
use cs.Scout.Broadcast.{
  Outcome, waiting, refused, finished, own_command, after_own, after_other, is_own, propose,
  compete, broadcast, connect_acceptors, log_op, finish, answer,
}

-- What the customer gets for the order `r` of a connection of the engineer, and what a read
-- request then finds in the records, before `m` and afterwards `n`.
abbrev pub Served : CustomerRequest → ℤ → ℤ → Map ℤ → Map ℤ → LaptopInfo → Type 0
Served r engineer_id factory_id m n l =
    (l.customer_id ≡ r.customer_id)
    × (l.order_number ≡ r.order_number)
    × (l.request_type ≡ r.request_type)
    × (l.engineer_id ≡ engineer_id)
    × (((l.admin_id ≡ negsuc 4)
          × ((q : CustomerRequest) → create_customer_record q n ≡ create_customer_record q m))
        ⊎ ((l.admin_id ≡ factory_id)
            × ((q : CustomerRequest)
                → create_customer_record q n ≡ (
                    if eqb_ℤ r.customer_id q.customer_id
                    then record { customer_id = q.customer_id; last_order = r.order_number }
                    else create_customer_record q m))))

read_after :
    (r q : CustomerRequest) (m : Map ℤ)
    → create_customer_record q (Map.assign r.customer_id r.order_number m) ≡ (
        if eqb_ℤ r.customer_id q.customer_id
        then record { customer_id = q.customer_id; last_order = r.order_number }
        else create_customer_record q m)
unfolding create_customer_record CustomerRecord.set_customer_record
read_after r q m =
    rw (find-assign r.customer_id q.customer_id r.order_number m)
      (elim (Bool-cases (eqb_ℤ r.customer_id q.customer_id)) [
        | inl e ↦ rw e refl
        | inr e ↦ rw e refl
      ])

module _ {W : Type 0} (net : Net W) where
  -- The prepare phase leaves the records alone.
  abbrev KeepsPrepared : Map ℤ → Prepared W → Type 0
  KeepsPrepared m running = Unit {0}
  KeepsPrepared m (too_few s w) = s.customer_record ≡ m
  KeepsPrepared m (promised s t w) = s.customer_record ≡ m

  prepare-KeepsPrepared :
      (fuel : ℕ) (s : Scout) (t : Tally) (w : W)
      → KeepsPrepared s.customer_record (prepare net fuel s t w)
  unfolding prepare
  prepare-KeepsPrepared zero s t w = tt
  prepare-KeepsPrepared (suc fuel) s t w =
      let r = prepare_round net s t w in
      elim (Bool-cases (is_majority s r.tally.active)) [
        | inr few ↦ rw few refl
        | inl enough ↦ elim (Bool-cases (is_majority s r.tally.promised)) [
          | inl most ↦ rw (enough, most) refl
          | inr less ↦ rw (enough, less) (prepare-KeepsPrepared fuel (retry s r) r.tally r.world)
        ]
      ]

  -- How a broadcast of the laptop leaves the records, when it ends.
  abbrev pub Recorded : LaptopInfo → Map ℤ → Outcome W → Type 0
  Recorded l m waiting = Unit {0}
  Recorded l m (refused s w) = s.customer_record ≡ m
  Recorded l m (finished s w) = s.customer_record ≡ Map.assign l.customer_id l.order_number m

  commander_records :
      (s : Scout) (cmd : Command) (w : W)
      → (commander net s cmd w).0.customer_record ≡ s.customer_record
  unfolding commander connect_learners
  commander_records s cmd w = ground arith

  finish-Recorded :
      (l : LaptopInfo) (m : Map ℤ) (p : Scout × W)
      → p.0.customer_record ≡ m
      → Recorded l m (finish net l p)
  unfolding finish
  finish-Recorded l m p e = ap (Map.assign l.customer_id l.order_number) e

  module _ (l : LaptopInfo) (again : Scout → W → Outcome W)
      (loop : (s : Scout) (w : W) → Recorded l s.customer_record (again s w)) where
    loop_from : (m : Map ℤ) (s : Scout) (w : W) → s.customer_record ≡ m → Recorded l m (again s w)
    loop_from m s w e = subst (λ n. Recorded l n (again s w)) e (loop s w)

    after_own-Recorded :
        (m : Map ℤ) (cmd : Command) (v : Verdict) (s : Scout) (w : W)
        → s.customer_record ≡ m
        → Recorded l m (after_own net l cmd again (v, s, w))
    unfolding after_own
    after_own-Recorded m cmd accepted s w e =
        finish-Recorded l m (commander net s cmd w) (commander_records s cmd w ∙ e)
    after_own-Recorded m cmd full_reject s w e = loop_from m s w e
    after_own-Recorded m cmd part_reject s w e = finish-Recorded l m (s, w) e
    after_own-Recorded m cmd inactive s w e = finish-Recorded l m (s, w) e

    after_other-Recorded :
        (m : Map ℤ) (cmd : Command) (v : Verdict) (s : Scout) (w : W)
        → s.customer_record ≡ m
        → Recorded l m (after_other net l cmd again (v, s, w))
    unfolding after_other
    after_other-Recorded m cmd accepted s w e =
        finish-Recorded l m (commander net s cmd w) (commander_records s cmd w ∙ e)
    after_other-Recorded m cmd full_reject s w e = loop_from m s w e
    after_other-Recorded m cmd part_reject s w e = loop_from m s w e
    after_other-Recorded m cmd inactive s w e = e

    propose-Recorded :
        (junk : ℤ) (m : Map ℤ) (p : Prepared W)
        → KeepsPrepared m p
        → Recorded l m (propose net junk l again p)
    unfolding propose own_command accept_phase
    propose-Recorded junk m running k = tt
    propose-Recorded junk m (too_few s w) k = k
    propose-Recorded junk m (promised s t w) k = elim (Bool-cases (is_own net t w)) [
      | inl own ↦
          let (cmd, s', w') = own_command net junk l s w in
          let (v, u, w'') = accept_phase net s' cmd w' in
          rw own (after_own-Recorded m cmd v u w'' k)
      | inr other ↦
          let (v, u, w') = accept_phase net s t.command w in
          rw other (after_other-Recorded m t.command v u w' k)
    ]

  compete-Recorded :
      (jumps rounds : ℕ) (junk : ℤ) (l : LaptopInfo) (s : Scout) (w : W)
      → Recorded l s.customer_record (compete net jumps rounds junk l s w)
  unfolding compete
  compete-Recorded zero rounds junk l s w = tt
  compete-Recorded (suc jumps) rounds junk l s w =
      propose-Recorded l (compete net jumps rounds junk l) (compete-Recorded jumps rounds junk l)
        junk s.customer_record _ (prepare-KeepsPrepared rounds s (no_tally junk) w)

  connected_records :
      (l : LaptopInfo) (s : Scout) (w : W)
      → (log_op net l (connect_acceptors net s w).0).customer_record ≡ s.customer_record
  unfolding log_op connect_acceptors
  connected_records l s w = ground arith

  -- ScoutBrocasting changes the records of the customers only when it returns 1, and then only that
  -- of the laptop's customer, to the laptop's order.
  pub broadcast-Recorded :
      (jumps rounds : ℕ) (junk : ℤ) (l : LaptopInfo) (s : Scout) (w : W)
      → Recorded l s.customer_record (broadcast net jumps rounds junk l s w)
  unfolding broadcast
  broadcast-Recorded jumps rounds junk l s w =
      let (s', w') = connect_acceptors net s w in
      let end = compete net jumps rounds junk l (log_op net l s') w' in
      subst (λ n. Recorded l n end) (connected_records l s w)
        (compete-Recorded jumps rounds junk l (log_op net l s') w')

  AllServed : CustomerRequest → ℤ → ℤ → Map ℤ → Option (LaptopInfo × Scout × W) → Type 0
  AllServed r engineer_id factory_id m none = Unit {0}
  AllServed r engineer_id factory_id m (some (l, s, w)) =
      Served r engineer_id factory_id m s.customer_record l

  answer-AllServed :
      (r : CustomerRequest) (engineer_id factory_id : ℤ) (m : Map ℤ) (o : Outcome W)
      → Recorded (new_laptop r engineer_id) m o
      → AllServed r engineer_id factory_id m (answer net factory_id (new_laptop r engineer_id) o)
  unfolding AllServed answer new_laptop
  answer-AllServed r engineer_id factory_id m waiting k = tt
  answer-AllServed r engineer_id factory_id m (refused s w) k =
      (refl, refl, refl, refl, inl (refl, λ q. ap (create_customer_record q) k))
  answer-AllServed r engineer_id factory_id m (finished s w) k =
      (refl, refl, refl, refl, inr (refl, λ q. ap (create_customer_record q) k ∙ read_after r q m))

  -- An order that is answered comes back with its customer, number and type and the id of the
  -- engineer. Either its admin is -5, and every read finds what it found before; or its admin is
  -- the factory, a read of that customer finds this order as the last one, and a read of any other
  -- finds what it found before.
  pub order_then_read :
      (jumps rounds : ℕ) (junk : ℤ) (r : CustomerRequest) (engineer_id : ℤ) (s s' : Scout)
      (w w' : W) (l : LaptopInfo)
      → create_regular_laptop net jumps rounds junk r engineer_id s w ≡ some (l, s', w')
      → Served r engineer_id s.factory_id s.customer_record s'.customer_record l
  unfolding create_regular_laptop AllServed
  order_then_read jumps rounds junk r engineer_id s s' w w' l e =
      subst (AllServed r engineer_id s.factory_id s.customer_record) e (
        answer-AllServed r engineer_id s.factory_id s.customer_record
          (broadcast net jumps rounds junk (new_laptop r engineer_id) s w)
          (broadcast-Recorded jumps rounds junk (new_laptop r engineer_id) s w))
