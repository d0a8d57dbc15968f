-- ===== src/Cluster/Rounds.antt =====
-- One message to every acceptor, or to every learner, of a cluster.
use cs.Acceptor
use cs.Acceptor.{Acceptor}
use cs.Base.{
  ℕ, ◌≡◌, ◌≢◌, refl, sym, ap, subst, ◌∙◌, true, Option, some, List, [], ◌∷◌, if◌then◌else◌, All,
  All-zip, Bool-cases, inl, inr,
}
use cs.Base.Int.{ℤ, pos, eqb_ℤ, eqb_ℤ_iff, eqb_ℤ_refl}
use cs.Cluster.{
  Node, Link, Cluster, set_at, to_acceptor, to_learner, deliver, cluster_net, reply_or, posted,
}
use cs.Map.{Map}
use cs.Messages.PaxosMsg.{PaxosMsg}
use cs.Scout.{add_stub}
use cs.Scout.Counting.{replies, world_after}
use cs.Scout.Phases.{tell}

-- The stubs are connections with a role, to different nodes.
abbrev pub IsLinked : ℤ → (ℤ → Link) → Map ℤ → Type 0
IsLinked role links [] = Unit {0}
IsLinked role links ((id, d) ∷ stubs) =
    ((links d).role ≡ role)
    × All (λ e. (links e.1).node ≢ (links d).node) stubs
    × IsLinked role links stubs

abbrev pub AllNodes : (Node → Type 0) → (ℤ → Link) → (ℤ → Node) → Map ℤ → Type 0
AllNodes P links nodes = All (λ e. P (nodes (links e.1).node))

set_at_self : {A : Type 0} (f : ℤ → A) (k : ℤ) (a : A) → set_at f k a k ≡ a
set_at_self f k a = rw (eqb_ℤ_refl k) refl

set_at_other : {A : Type 0} (f : ℤ → A) (k j : ℤ) (a : A) → j ≢ k → set_at f k a j ≡ f j
set_at_other f k j a ne = elim (Bool-cases (eqb_ℤ k j)) [
  | inr other ↦ rw other refl
  | inl same ↦ absurd (ne (sym ((eqb_ℤ_iff k j).0 same)))
]

-- The message on every connection, one after the other.
unfoldable pub deliver_all : PaxosMsg → Map ℤ → Cluster → Cluster
deliver_all msg [] w = w
deliver_all msg ((id, d) ∷ stubs) w = deliver_all msg stubs (deliver d msg w)

-- What a message with a role does to the node.
unfoldable pub change : ℤ → PaxosMsg → Node → Node
change role msg n =
    if eqb_ℤ role (pos 2)
    then record n { acceptor = (Acceptor.on_message n.acceptor msg).0 }
    else if eqb_ℤ role (pos 3)
    then record n { learner = posted msg n.learner }
    else n

-- One message: the node behind the connection changes, and nothing else.
pub record IsChanged (role : ℤ) (msg : PaxosMsg) (d : ℤ) (w w' : Cluster) : Type 0 where
  pub links : w'.links ≡ w.links
  pub time : w'.time ≡ w.time
  pub here : w'.nodes (w.links d).node ≡ change role msg (w.nodes (w.links d).node)
  pub others : (k : ℤ) → k ≢ (w.links d).node → w'.nodes k ≡ w.nodes k

deliver-IsChanged_acceptor :
    (msg : PaxosMsg) (d : ℤ) (w : Cluster)
    → (w.links d).role ≡ pos 2
    → IsChanged (pos 2) msg d w (deliver d msg w)
unfolding deliver to_acceptor change
deliver-IsChanged_acceptor msg d w role = rw role (record {
  links = refl;
  time = refl;
  here = set_at_self w.nodes (w.links d).node _;
  others = λ k ne. set_at_other w.nodes (w.links d).node k _ ne;
})

deliver-IsChanged_learner :
    (msg : PaxosMsg) (d : ℤ) (w : Cluster)
    → (w.links d).role ≡ pos 3
    → IsChanged (pos 3) msg d w (deliver d msg w)
unfolding deliver to_learner change
deliver-IsChanged_learner msg d w role = rw role (record {
  links = refl;
  time = refl;
  here = set_at_self w.nodes (w.links d).node _;
  others = λ k ne. set_at_other w.nodes (w.links d).node k _ ne;
})

-- A message on every connection.
pub record AllChanged (role : ℤ) (msg : PaxosMsg) (stubs : Map ℤ) (w w' : Cluster) : Type 0 where
  pub links : w'.links ≡ w.links
  pub time : w'.time ≡ w.time
  pub here :
      All (λ e. w'.nodes (w.links e.1).node ≡ change role msg (w.nodes (w.links e.1).node)) stubs
  pub others : (k : ℤ) → All (λ e. (w.links e.1).node ≢ k) stubs → w'.nodes k ≡ w.nodes k

-- How one message acts, for a role.
abbrev pub Acts : ℤ → PaxosMsg → Type 0
Acts role msg =
    (d : ℤ) (w : Cluster) → (w.links d).role ≡ role → IsChanged role msg d w (deliver d msg w)

deliver_all-cons :
    (role : ℤ) (msg : PaxosMsg) (id d : ℤ) (stubs : Map ℤ) (w w₁ w' : Cluster)
    → All (λ e. (w.links e.1).node ≢ (w.links d).node) stubs
    → IsChanged role msg d w w₁
    → AllChanged role msg stubs w₁ w'
    → AllChanged role msg ((id, d) ∷ stubs) w w'
deliver_all-cons role msg id d stubs w w₁ w' apart c ih =
    let k = (w.links d).node in
    let tail : All
        (λ e. w'.nodes (w.links e.1).node ≡ change role msg (w₁.nodes (w.links e.1).node)) stubs =
      subst
        (λ (links : ℤ → Link).
          All (λ e. w'.nodes (links e.1).node ≡ change role msg (w₁.nodes (links e.1).node)) stubs)
        c.links ih.here in
    record {
      links = ih.links ∙ c.links;
      time = ih.time ∙ c.time;
      here = (
        ih.others k (
              subst (λ (links : ℤ → Link). All (λ e. (links e.1).node ≢ k) stubs) (sym c.links)
                apart)
            ∙ c.here,
        All-zip (λ e. (w.links e.1).node ≢ k)
            (λ e. w'.nodes (w.links e.1).node ≡ change role msg (w₁.nodes (w.links e.1).node))
            (λ e. w'.nodes (w.links e.1).node ≡ change role msg (w.nodes (w.links e.1).node)) stubs
            (λ e ne old. old ∙ ap (change role msg) (c.others (w.links e.1).node ne)) apart tail,
      );
      others = λ j ne.
          ih.others j
            (subst (λ (links : ℤ → Link). All (λ e. (links e.1).node ≢ j) stubs) (sym c.links) ne.1)
          ∙ c.others j (λ e. ne.0 (sym e));
    }

pub deliver_all-AllChanged :
    (role : ℤ) (msg : PaxosMsg)
    → Acts role msg
    → (stubs : Map ℤ) (w : Cluster) → IsLinked role w.links stubs
    → AllChanged role msg stubs w (deliver_all msg stubs w)
unfolding deliver_all
deliver_all-AllChanged role msg acts [] w linked = record {
  links = refl;
  time = refl;
  here = tt;
  others = λ k none_here. refl;
}
deliver_all-AllChanged role msg acts ((id, d) ∷ stubs) w (is_role, apart, linked) =
    let c = acts d w is_role in
    deliver_all-cons role msg id d stubs w (deliver d msg w)
      (deliver_all msg stubs (deliver d msg w)) apart c
      (deliver_all-AllChanged role msg acts stubs (deliver d msg w)
        (subst (λ (links : ℤ → Link). IsLinked role links stubs) (sym c.links) linked))

pub acceptors_act : (msg : PaxosMsg) → Acts (pos 2) msg
acceptors_act msg d w role = deliver-IsChanged_acceptor msg d w role

pub learners_act : (msg : PaxosMsg) → Acts (pos 3) msg
learners_act msg d w role = deliver-IsChanged_learner msg d w role

-- The same answer from every stub.
abbrev pub same_from : Map ℤ → PaxosMsg → List (Option PaxosMsg)
same_from [] r = []
same_from (e ∷ stubs) r = some r ∷ same_from stubs r

deliver-inbox :
    (msg r : PaxosMsg) (a : Acceptor) (d : ℤ) (w : Cluster)
    → (Acceptor.on_message a msg).1 ≡ some r
    → (w.links d).role ≡ pos 2
    → (w.nodes (w.links d).node).acceptor ≡ a
    → (deliver d msg w).inbox d ≡ r
unfolding deliver to_acceptor
deliver-inbox msg r a d w handled role here = rw role (
    set_at_self w.inbox d _
    ∙ ap (reply_or (w.inbox d))
        (ap (λ (b : Acceptor). (Acceptor.on_message b msg).1) here ∙ handled))

module _ (host : List ℕ → ℤ → Option ℤ) (self : ℤ) where
  pub world_after-deliver_all :
      (msg : PaxosMsg) (stubs : Map ℤ) (w : Cluster)
      → world_after (cluster_net host self) msg stubs w ≡ deliver_all msg stubs w
  unfolding world_after deliver_all cluster_net
  world_after-deliver_all msg [] w = refl
  world_after-deliver_all msg ((id, d) ∷ stubs) w =
      world_after-deliver_all msg stubs (deliver d msg w)

  -- Acceptors in one state give one answer.
  pub replies-same_from :
      (msg r : PaxosMsg) (a : Acceptor) (stubs : Map ℤ) (w : Cluster)
      → (Acceptor.on_message a msg).1 ≡ some r
      → IsLinked (pos 2) w.links stubs
      → AllNodes (λ n. n.acceptor ≡ a) w.links w.nodes stubs
      → replies (cluster_net host self) msg stubs w ≡ same_from stubs r
  unfolding replies cluster_net
  replies-same_from msg r a [] w handled linked same = refl
  replies-same_from msg r a ((id, d) ∷ stubs) w handled (role, apart, linked) (here, same) =
      let w₁ = deliver d msg w in
      let c = acceptors_act msg d w role in
      let still : AllNodes (λ n. n.acceptor ≡ a) w.links w₁.nodes stubs =
        All-zip (λ e. (w.links e.1).node ≢ (w.links d).node)
          (λ e. (w.nodes (w.links e.1).node).acceptor ≡ a)
          (λ e. (w₁.nodes (w.links e.1).node).acceptor ≡ a) stubs
          (λ e ne old. ap (λ (n : Node). n.acceptor) (c.others (w.links e.1).node ne) ∙ old) apart
          same in
      let rest =
        replies-same_from msg r a stubs w₁ handled
          (subst (λ (links : ℤ → Link). IsLinked (pos 2) links stubs) (sym c.links) linked)
          (subst (λ (links : ℤ → Link). AllNodes (λ n. n.acceptor ≡ a) links w₁.nodes stubs)
            (sym c.links) still) in
      ap (λ (x : PaxosMsg). some x ∷ replies (cluster_net host self) msg stubs w₁)
        (deliver-inbox msg r a d w handled role here)
      ∙ ap (λ (rs : List (Option PaxosMsg)). some r ∷ rs) rest

  -- The commander's loop.
  pub tell-deliver_all :
      (msg : PaxosMsg) (stubs others : Map ℤ) (w : Cluster)
      → tell (cluster_net host self) msg stubs others w
        ≡ record { stubs = stubs; others = others; tally = tt; world = deliver_all msg stubs w }
  unfolding tell deliver_all cluster_net
  tell-deliver_all msg [] others w = refl
  tell-deliver_all msg ((id, d) ∷ stubs) others w =
      ap (add_stub true id d) (tell-deliver_all msg stubs others (deliver d msg w))
