-- ===== src/Cluster/Alike.antt =====
-- A cluster whose acceptors are all in one state, and whose learners are too.
use cs.Acceptor
use cs.Acceptor.{Acceptor}
use cs.Base.{
  ℕ, ◌≡◌, refl, sym, ap, subst, ◌∙◌, ◌⊎◌, inl, inr, true, false, Option, some, List, [], ◌∷◌,
  length, All-map, All-zip, Bool-cases, arith,
}
use cs.Base.Int.{ℤ, pos, eqb_ℤ, eqb_ℤ_iff}
use cs.Cluster.{Node, Link, Cluster, deliver, cluster_net, Station, posted, settle, read_mail}
use cs.Cluster.Rounds.{
  IsLinked, AllNodes, deliver_all, change, Acts, deliver_all-AllChanged, acceptors_act,
  learners_act, same_from, world_after-deliver_all, replies-same_from,
}
use cs.Map.{Map}
use cs.Messages.PaxosMsg.{PaxosMsg}
use cs.Scout.{round, agrees}
use cs.Scout.Counting.{round_lem, answering, without_silent, agreeing, answers, count_all}

-- One of the stubs leads to the node.
abbrev pub IsBehind : ℤ → (ℤ → Link) → Map ℤ → Type 0
IsBehind k links [] = ⊥
IsBehind k links (e ∷ stubs) = ((links e.1).node ≡ k) ⊎ IsBehind k links stubs

pub AllNodes-IsBehind :
    (P : Node → Type 0) (k : ℤ) (links : ℤ → Link) (nodes : ℤ → Node) (stubs : Map ℤ)
    → IsBehind k links stubs
    → AllNodes P links nodes stubs
    → P (nodes k)
AllNodes-IsBehind P k links nodes [] b holds = absurd b
AllNodes-IsBehind P k links nodes (e ∷ stubs) (inl here) (hold, holds) =
    subst (λ (j : ℤ). P (nodes j)) here hold
AllNodes-IsBehind P k links nodes (e ∷ stubs) (inr later) (hold, holds) =
    AllNodes-IsBehind P k links nodes stubs later holds

-- The stubs of `voters` lead to acceptors in the state `a`, those of `readers` to learners in the state
-- `l`, one of them to the node `self`.
pub record Alike (self : ℤ) (voters readers : Map ℤ) (a : Acceptor) (l : Station) (links : ℤ → Link)
    (nodes : ℤ → Node) : Type 0 where
  pub linked_acceptors : IsLinked (pos 2) links voters
  pub linked_learners : IsLinked (pos 3) links readers
  pub acceptors : AllNodes (λ n. n.acceptor ≡ a) links nodes voters
  pub learners : AllNodes (λ n. n.learner ≡ l) links nodes readers
  pub home : IsBehind self links readers

-- What a message leaves as it is in every node.
deliver_all-keeps :
    {B : Type 0} (f : Node → B) (role : ℤ) (msg : PaxosMsg)
    → Acts role msg
    → ((n : Node) → f (change role msg n) ≡ f n)
    → (stubs : Map ℤ) (w : Cluster) → IsLinked role w.links stubs
    → (k : ℤ) → f ((deliver_all msg stubs w).nodes k) ≡ f (w.nodes k)
unfolding deliver_all
deliver_all-keeps f role msg acts stays [] w linked k = refl
deliver_all-keeps f role msg acts stays ((id, d) ∷ stubs) w (is_role, apart, linked) k =
    let c = acts d w is_role in
    let here : f ((deliver d msg w).nodes k) ≡ f (w.nodes k) =
      elim (Bool-cases (eqb_ℤ k (w.links d).node)) [
        | inl same ↦
            subst (λ (j : ℤ). f ((deliver d msg w).nodes j) ≡ f (w.nodes j))
              (sym ((eqb_ℤ_iff k (w.links d).node).0 same))
              (ap f c.here ∙ stays (w.nodes (w.links d).node))
        | inr other ↦ ap f (c.others k (λ e. cc ((eqb_ℤ_iff k (w.links d).node).1 e)))
      ] in
    deliver_all-keeps f role msg acts stays stubs (deliver d msg w)
      (subst (λ (links : ℤ → Link). IsLinked role links stubs) (sym c.links) linked) k
    ∙ here

change-learner : (msg : PaxosMsg) (n : Node) → (change (pos 2) msg n).learner ≡ n.learner
unfolding change
change-learner msg n = refl

change-acceptor : (msg : PaxosMsg) (n : Node) → (change (pos 3) msg n).acceptor ≡ n.acceptor
unfolding change
change-acceptor msg n = refl

-- A message to all acceptors moves them on together.
pub acceptors-Alike :
    (self : ℤ) (voters readers : Map ℤ) (a b : Acceptor) (l : Station) (msg : PaxosMsg)
    (w : Cluster)
    → (Acceptor.on_message a msg).0 ≡ b
    → Alike self voters readers a l w.links w.nodes
    → let w' = deliver_all msg voters w in Alike self voters readers b l w'.links w'.nodes
unfolding change
acceptors-Alike self voters readers a b l msg w handled g =
    let w' = deliver_all msg voters w in
    let c = deliver_all-AllChanged (pos 2) msg (acceptors_act msg) voters w g.linked_acceptors in
    let kept =
      deliver_all-keeps (λ (n : Node). n.learner) (pos 2) msg (acceptors_act msg)
        (change-learner msg) voters w g.linked_acceptors in
    let moved : AllNodes (λ n. n.acceptor ≡ b) w.links w'.nodes voters =
      All-zip (λ e. w'.nodes (w.links e.1).node ≡ change (pos 2) msg (w.nodes (w.links e.1).node))
        (λ e. (w.nodes (w.links e.1).node).acceptor ≡ a)
        (λ e. (w'.nodes (w.links e.1).node).acceptor ≡ b) voters
        (λ e new old.
          ap (λ (n : Node). n.acceptor) new
          ∙ ap (λ (x : Acceptor). (Acceptor.on_message x msg).0) old
          ∙ handled)
        c.here g.acceptors in
    let same : AllNodes (λ n. n.learner ≡ l) w.links w'.nodes readers =
      All-map (λ e. (w.nodes (w.links e.1).node).learner ≡ l)
        (λ e. (w'.nodes (w.links e.1).node).learner ≡ l) readers
        (λ e old. kept (w.links e.1).node ∙ old) g.learners in
    subst (λ (links : ℤ → Link). Alike self voters readers b l links w'.nodes) (sym c.links)
      (record {
        linked_acceptors = g.linked_acceptors;
        linked_learners = g.linked_learners;
        acceptors = moved;
        learners = same;
        home = g.home;
      })

-- A message to all learners.
pub learners-Alike :
    (self : ℤ) (voters readers : Map ℤ) (a : Acceptor) (l : Station) (msg : PaxosMsg) (w : Cluster)
    → Alike self voters readers a l w.links w.nodes
    → let w' = deliver_all msg readers w in
      Alike self voters readers a (posted msg l) w'.links w'.nodes
unfolding change
learners-Alike self voters readers a l msg w g =
    let w' = deliver_all msg readers w in
    let c = deliver_all-AllChanged (pos 3) msg (learners_act msg) readers w g.linked_learners in
    let kept =
      deliver_all-keeps (λ (n : Node). n.acceptor) (pos 3) msg (learners_act msg)
        (change-acceptor msg) readers w g.linked_learners in
    let moved : AllNodes (λ n. n.learner ≡ (posted msg l)) w.links w'.nodes readers =
      All-zip (λ e. w'.nodes (w.links e.1).node ≡ change (pos 3) msg (w.nodes (w.links e.1).node))
        (λ e. (w.nodes (w.links e.1).node).learner ≡ l)
        (λ e. (w'.nodes (w.links e.1).node).learner ≡ (posted msg l)) readers
        (λ e new old. ap (λ (n : Node). n.learner) new ∙ ap (posted msg) old) c.here g.learners in
    let same : AllNodes (λ n. n.acceptor ≡ a) w.links w'.nodes voters =
      All-map (λ e. (w.nodes (w.links e.1).node).acceptor ≡ a)
        (λ e. (w'.nodes (w.links e.1).node).acceptor ≡ a) voters
        (λ e old. kept (w.links e.1).node ∙ old) g.acceptors in
    subst (λ (links : ℤ → Link). Alike self voters readers a (posted msg l) links w'.nodes)
      (sym c.links)
      (record {
        linked_acceptors = g.linked_acceptors;
        linked_learners = g.linked_learners;
        acceptors = same;
        learners = moved;
        home = g.home;
      })

-- The threads of the learners, which are all in one state.
pub settle-Alike :
    (self : ℤ) (voters readers : Map ℤ) (a : Acceptor) (l : Station) (w : Cluster)
    → Alike self voters readers a l w.links w.nodes
    → Alike self voters readers a (read_mail l) (settle w).links (settle w).nodes
unfolding settle
settle-Alike self voters readers a l w g = record {
  linked_acceptors = g.linked_acceptors;
  linked_learners = g.linked_learners;
  acceptors = g.acceptors;
  learners =
      All-map (λ e. (w.nodes (w.links e.1).node).learner ≡ l)
        (λ e. ((settle w).nodes (w.links e.1).node).learner ≡ read_mail l) readers
        (λ e old. ap read_mail old) g.learners;
  home = g.home;
}

-- One answer from every stub.
module _ (r : PaxosMsg) where
  answering-same_from : (stubs : Map ℤ) → answering stubs (same_from stubs r) ≡ stubs
  unfolding answering
  answering-same_from [] = refl
  answering-same_from (e ∷ stubs) = ap (◌∷◌ e) (answering-same_from stubs)

  without_silent-same_from :
      (stubs others : Map ℤ) → without_silent stubs (same_from stubs r) others ≡ others
  unfolding without_silent
  without_silent-same_from [] others = refl
  without_silent-same_from (e ∷ stubs) others = without_silent-same_from stubs others

  pub answers-same_from : (stubs : Map ℤ) → answers (same_from stubs r) ≡ length stubs
  unfolding answers
  answers-same_from [] = refl
  answers-same_from (e ∷ stubs) = omega (arith, answers-same_from stubs)

  pub agreeing-all : (stubs : Map ℤ) → agrees r ≡ true → agreeing (same_from stubs r) ≡ length stubs
  unfolding agreeing
  agreeing-all [] h = refl
  agreeing-all (e ∷ stubs) h = ground (arith, agreeing-all stubs h)

  pub agreeing-none : (stubs : Map ℤ) → agrees r ≡ false → agreeing (same_from stubs r) ≡ 0
  unfolding agreeing
  agreeing-none [] h = refl
  agreeing-none (e ∷ stubs) h = ground (arith, agreeing-none stubs h)

-- A round among acceptors in one state: every stub stays, and every answer is the same.
pub round-Alike :
    {T : Type 0} (host : List ℕ → ℤ → Option ℤ) (self : ℤ) (voters readers : Map ℤ) (a : Acceptor)
    (l : Station) (msg r : PaxosMsg) (count : PaxosMsg → T → T) (t : T) (w : Cluster)
    → (Acceptor.on_message a msg).1 ≡ some r
    → Alike self voters readers a l w.links w.nodes
    → round (cluster_net host self) msg count voters readers t w ≡ record {
      stubs = voters;
      others = readers;
      tally = count_all count t (same_from voters r);
      world = deliver_all msg voters w;
    }
round-Alike host self voters readers a l msg r count t w handled g =
    rw
      (
        round_lem (cluster_net host self) msg count voters readers t w,
        replies-same_from host self msg r a voters w handled g.linked_acceptors g.acceptors,
        world_after-deliver_all host self msg voters w,
        answering-same_from r voters,
        without_silent-same_from r voters readers,
      )
      refl
