-- ===== src/Customer/Orders.antt =====
-- The orders that a customer sends, whatever the servers do.
use cs.Base.{
  ℕ, zero, suc, ◌≤◌, ◌≡◌, refl, ap, false, Option, none, some, [], ◌∷◌, length, arith, Bool-cases,
  inl, inr,
}
use cs.Base.Int.{ℤ, pos, negsuc, pos_part, eqb_ℤ, eqb_ℤ_iff}
use cs.Customer.{
  Shop, Customer, Ending, all_sent, not_working, all_lost, Trace, sent_first, request_at, reconnect,
  reconnected, after_answer, orders_from, orders,
}
use cs.Messages.CustomerRequest
use cs.Messages.CustomerRequest.{CustomerRequest}
use cs.Messages.LaptopInfo
use cs.Messages.LaptopInfo.{LaptopInfo}
use cs.Messages.ServerConfig.{ServerConfig}

-- The requests of a customer with the numbers from `i` on, as many as the trace is long.
abbrev pub Numbered : ℤ → ℤ → ℕ → Trace → Type 0
Numbered id type i [] = Unit {0}
Numbered id type i ((request, laptop) ∷ trace) =
    (request ≡ record { customer_id = id; order_number = pos i; request_type = type })
    × Numbered id type (suc i) trace

abbrev pub Last : (LaptopInfo → Type 0) → Trace → Type 0
Last P [] = ⊥
Last P ((request, laptop) ∷ []) = P laptop
Last P (a ∷ b ∷ trace) = Last P (b ∷ trace)

-- Why there are no more orders, where `n` were asked for.
abbrev pub Closed : ℕ → Ending → Trace → Type 0
Closed n all_sent trace = length trace ≡ n
Closed n not_working trace = Last (λ l. l.admin_id ≡ negsuc 4) trace
Closed n all_lost trace = Last (λ l. LaptopInfo.is_valid l ≡ false) trace

pub record Course (id type : ℤ) (i n : ℕ) (ending : Ending) (trace : Trace) : Type 0 where
  pub numbered : Numbered id type i trace
  pub enough : length trace ≤ n
  pub closed : Closed n ending trace

Closed-cons :
    (n : ℕ) (e : Ending) (p : CustomerRequest × LaptopInfo) (trace : Trace)
    → Closed n e trace
    → Closed (suc n) e (p ∷ trace)
Closed-cons n all_sent p trace c = ap suc c
Closed-cons n not_working p [] c = absurd c
Closed-cons n not_working p (q ∷ trace) c = c
Closed-cons n all_lost p [] c = absurd c
Closed-cons n all_lost p (q ∷ trace) c = c

module _ {W : Type 0} (shop : Shop W) where
  abbrev CourseOf : Customer → ℕ → ℕ → Ending × Trace × Customer × W → Type 0
  CourseOf c i n (e, trace, c', w) = Course c.customer_id c.request_type i n e trace

  CourseOf-cons :
      (c : Customer) (i n : ℕ) (l : LaptopInfo) (r : Ending × Trace × Customer × W)
      → CourseOf c (suc i) n r
      → CourseOf c i (suc n) (sent_first (request_at c i) l r)
  unfolding request_at CustomerRequest.set_order
  CourseOf-cons c i n l (e, trace, c', w) k = record {
    numbered = (refl, k.numbered);
    enough = omega (arith, k.enough);
    closed = Closed-cons n e (request_at c i, l) trace k.closed;
  }

  module _ (c : Customer) (i n : ℕ) (next : Customer → W → Ending × Trace × Customer × W)
      (step : (config : ServerConfig) (w : W)
        → CourseOf c (suc i) n (next (record c { server_config = config }) w)) where
    reconnected-CourseOf :
        (l : LaptopInfo) (r : Option ServerConfig × W)
        → LaptopInfo.is_valid l ≡ false
        → CourseOf c i (suc n) (sent_first (request_at c i) l (reconnected shop r c next))
    unfolding request_at CustomerRequest.set_order
    reconnected-CourseOf l (none, w) v = record {
      numbered = (refl, tt);
      enough = omega arith;
      closed = v;
    }
    reconnected-CourseOf l (some config, w) v =
        CourseOf-cons c i n l (next (record c { server_config = config }) w) (step config w)

    after_answer-CourseOf :
        (l : LaptopInfo) (w : W)
        → CourseOf c i (suc n) (sent_first (request_at c i) l (after_answer shop (l, w) c next))
    unfolding request_at CustomerRequest.set_order
    after_answer-CourseOf l w = elim (Bool-cases (eqb_ℤ l.admin_id (negsuc 4))) [
      | inl bad ↦ rw bad (record {
        numbered = (refl, tt);
        enough = omega arith;
        closed = (eqb_ℤ_iff l.admin_id (negsuc 4)).0 bad;
      })
      | inr good ↦ elim (Bool-cases (LaptopInfo.is_valid l)) [
        | inl valid ↦ rw (good, valid) (CourseOf-cons c i n l (next c w) (step c.server_config w))
        | inr lost ↦
            rw (good, lost) (reconnected-CourseOf l (reconnect shop c.server_config.servers w) lost)
      ]
    ]

  orders_from-CourseOf :
      (n i : ℕ) (c : Customer) (w : W) → CourseOf c i n (orders_from shop n i c w)
  unfolding orders_from
  orders_from-CourseOf zero i c w = record { numbered = tt; enough = omega arith; closed = refl }
  orders_from-CourseOf (suc n) i c w =
      let (l, w') = shop.order (request_at c i) w in
      after_answer-CourseOf c i n (orders_from shop n (suc i))
        (λ config u. orders_from-CourseOf n (suc i) (record c { server_config = config }) u) l w'

  -- Whatever the servers answer: the orders sent have the numbers 0, 1, 2 and so on, each once, and
  -- not more than num_orders. Orders ends after all of them, or after a laptop whose admin is -5, or
  -- after an answer that is not valid.
  pub orders-Course :
      (c : Customer) (w : W)
      → let (ending, trace, c', w') = orders shop c w in
        Course c.customer_id c.request_type 0 (pos_part c.num_orders) ending trace
  unfolding orders
  orders-Course c w = orders_from-CourseOf (pos_part c.num_orders) 0 c w
