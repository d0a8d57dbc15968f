-- ===== src/Engineer/Backup.antt =====
-- The log of a backup: EngineerThread with identity 1, on the requests of a connection.
use cs.Base.{
  ℕ, zero, suc, ◌+◌, ◌≤◌, ◌<◌, ◌≡◌, refl, sym, ap, ◌∙◌, true, Option, none, some, List, [], ◌∷◌,
  ◌++◌, append_assoc, append-nil, arith, length, length-append, get_elem?, replicate,
}
use cs.Base.Int.{ℤ, pos, negsuc, ◌<ℤ◌, ◌≤ℤ◌}
use cs.Engineer.{Factory, on_log_request, commit_index, log_response, serve_backup}
use cs.Map
use cs.Map.{Map}
use cs.Messages.LogRequest
use cs.Messages.LogRequest.{LogRequest}
use cs.Messages.LogResponse
use cs.Messages.LogResponse.{LogResponse}
use cs.Messages.MapOp.{MapOp}
use cs.Scout.{Scout}

get_elem?-append {ℓ} :
    {A : Type ℓ} (xs ys : List A) (i : ℕ) → i < length xs → get_elem? (xs ++ ys) i ≡ get_elem? xs i
get_elem?-append [] ys i h = absurd (omega arith)
get_elem?-append (x ∷ xs) ys zero h = refl
get_elem?-append (x ∷ xs) ys (suc i) h = get_elem?-append xs ys i (omega arith)

get_elem?-lt {ℓ} :
    {A : Type ℓ} (xs : List A) (i : ℕ) → i < length xs → (x : A) × (get_elem? xs i ≡ some x)
get_elem?-lt [] i h = absurd (omega arith)
get_elem?-lt (x ∷ xs) zero h = (x, refl)
get_elem?-lt (x ∷ xs) (suc i) h = get_elem?-lt xs i (omega arith)

get_elem?-ge {ℓ} : {A : Type ℓ} (xs : List A) (i : ℕ) → length xs ≤ i → get_elem? xs i ≡ none
get_elem?-ge [] i h = refl
get_elem?-ge (x ∷ xs) zero h = absurd (omega arith)
get_elem?-ge (x ∷ xs) (suc i) h = get_elem?-ge xs i (omega arith)

-- The operations that the requests carry, in order.
abbrev pub ops : List LogRequest → List MapOp
ops [] = []
ops (r ∷ rs) = r.op ∷ ops rs

abbrev pub assign_op : Option MapOp → Map ℤ → Map ℤ
assign_op none m = m
assign_op (some op) m = Map.assign op.arg1 op.arg2 m

abbrev pub assign_at : List MapOp → ℤ → Map ℤ → Map ℤ
assign_at log (pos i) m = assign_op (get_elem? log i) m
assign_at log (negsuc i) m = m

-- The records after the entries at the committed indexes are applied, one after the other, all
-- looked up in one log.
unfoldable pub replay : List MapOp → List LogRequest → Map ℤ → Map ℤ
unfolding Map.assign
replay log [] m = m
replay log (r ∷ rs) m = replay log rs (assign_at log r.committed_index m)

-- Every request is valid, and commits nothing behind the entry that it brings to a log of `n`.
abbrev pub AllInRange : ℕ → List LogRequest → Type 0
AllInRange n [] = Unit {0}
AllInRange n (r ∷ rs) =
    (LogRequest.is_valid r ≡ true) × (r.committed_index ≤ℤ pos n) × AllInRange (suc n) rs

-- What a row of requests comes to.
pub record Backed (f : Factory) (rs : List LogRequest) (g : Factory) : Type 0 where
  pub log : g.scout.smr_log ≡ f.scout.smr_log ++ ops rs
  pub records :
      g.scout.customer_record ≡ replay (f.scout.smr_log ++ ops rs) rs f.scout.customer_record
  pub id : g.scout.factory_id ≡ f.scout.factory_id

abbrev Committed : Factory → LogRequest → List MapOp → Factory → Type 0
Committed f r later g =
    (g.scout.smr_log ≡ f.scout.smr_log ++ r.op ∷ [])
    × (g.scout.factory_id ≡ f.scout.factory_id)
    × (g.scout.customer_record
        ≡ assign_at (f.scout.smr_log ++ r.op ∷ later) r.committed_index f.scout.customer_record)

commit_in_range :
    (index : ℤ) (s : Scout) (later : List MapOp)
    → index <ℤ pos (length s.smr_log)
    → commit_index index s
      ≡ some (record s { customer_record = assign_at (s.smr_log ++ later) index s.customer_record })
unfolding commit_index
commit_in_range (negsuc i) s later h = refl
commit_in_range (pos i) s later h =
    let (op, e) = get_elem?-lt s.smr_log i (omega arith) in
    rw (get_elem?-append s.smr_log later i (omega arith), e) refl

on_log_request_in_range :
    (r : LogRequest) (f : Factory) (later : List MapOp)
    → r.committed_index ≤ℤ pos (length f.scout.smr_log)
    → (g : Factory) × (on_log_request r f ≡ some g) × Committed f r later g
unfolding on_log_request
on_log_request_in_range r f later h =
    let s = record f.scout { smr_log = f.scout.smr_log ++ r.op ∷ []; last_index = r.last_index } in
    let longer : length s.smr_log ≡ length f.scout.smr_log + 1 =
      length-append f.scout.smr_log (r.op ∷ []) in
    let records = assign_at (s.smr_log ++ later) r.committed_index f.scout.customer_record in
    (
      record f {
        scout = record s { customer_record = records };
        committed_index = r.committed_index;
      },
      rw (commit_in_range r.committed_index s later (rw longer (omega arith))) refl,
      (
        refl,
        refl,
        ap (λ l. assign_at l r.committed_index f.scout.customer_record)
            (append_assoc f.scout.smr_log (r.op ∷ []) later),
      ),
    )

commit_index_past :
    (index : ℤ) (s : Scout) → pos (length s.smr_log) ≤ℤ index → commit_index index s ≡ none
unfolding commit_index
commit_index_past (negsuc i) s h = absurd (omega arith)
commit_index_past (pos i) s h = rw (get_elem?-ge s.smr_log i (omega arith)) refl

-- A valid request that commits an entry behind its own makes the engineer read past the end of
-- smr_log.
pub commit_past_end :
    (r : LogRequest) (rs : List LogRequest) (f : Factory)
    → LogRequest.is_valid r ≡ true
    → pos (length f.scout.smr_log) <ℤ r.committed_index
    → serve_backup (r ∷ rs) f ≡ none
unfolding serve_backup on_log_request
commit_past_end r rs f v h =
    let s = record f.scout { smr_log = f.scout.smr_log ++ r.op ∷ []; last_index = r.last_index } in
    let longer : length s.smr_log ≡ length f.scout.smr_log + 1 =
      length-append f.scout.smr_log (r.op ∷ []) in
    rw (v, commit_index_past r.committed_index s (rw longer (omega arith))) refl

same_response :
    (f g : Factory) → g.scout.factory_id ≡ f.scout.factory_id → log_response g ≡ log_response f
unfolding log_response LogResponse.set_factory_id
same_response f g e = rw e refl

-- What becomes of the rest, after the first request.
Backed-cons :
    (f g k : Factory) (r : LogRequest) (rs : List LogRequest)
    → Committed f r (ops rs) g
    → Backed g rs k
    → Backed f (r ∷ rs) k
unfolding replay
Backed-cons f g k r rs (l, i, m) b =
    let whole : g.scout.smr_log ++ ops rs ≡ f.scout.smr_log ++ r.op ∷ ops rs =
      ap (λ (x : List MapOp). x ++ ops rs) l ∙ append_assoc f.scout.smr_log (r.op ∷ []) (ops rs) in
    record {
      log = b.log ∙ whole;
      records =
          b.records
          ∙ (ap (λ (x : List MapOp). replay x rs g.scout.customer_record) whole
              ∙ ap (replay (f.scout.smr_log ++ r.op ∷ ops rs) rs) m);
      id = b.id ∙ i;
    }

-- A row of valid requests, none of which commits an entry behind its own, is served to the end: the
-- log grows by their operations, the records have the committed entries applied in order, and each
-- request has a response with the id of the factory.
pub serve_backup-Backed :
    (rs : List LogRequest) (f : Factory)
    → AllInRange (length f.scout.smr_log) rs
    → (g : Factory) × (serve_backup rs f ≡ some (g, replicate (length rs) (log_response f)))
      × Backed f rs g
unfolding serve_backup
serve_backup-Backed [] f h = (
  f,
  refl,
  record { log = sym (append-nil f.scout.smr_log); records = unfold replay in refl; id = refl },
)
serve_backup-Backed (r ∷ rs) f (v, c, h) =
    let (g, e, done) = on_log_request_in_range r f (ops rs) c in
    let longer : length g.scout.smr_log ≡ suc (length f.scout.smr_log) =
      ap length done.0 ∙ omega (arith, length-append f.scout.smr_log (r.op ∷ [])) in
    let (k, e', b) = serve_backup-Backed rs g (rw longer h) in
    (
      k,
      rw (v, e, e')
          (ap (λ (x : LogResponse). some (k, x ∷ replicate (length rs) x))
            (same_response f g done.1)),
      Backed-cons f g k r rs done b,
    )
