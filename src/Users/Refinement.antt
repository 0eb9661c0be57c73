-- ===== src/Users/Refinement.antt =====
-- The graph of follows and blocks that the calls build (internal/repository/postgres/user_repository.go).
use mathlib.Core.Path.{fun_ext}
use auction_server.Prelude.{
  ◌≡◌, refl, ap, ◌∙◌, Bool, true, false, ◌&&◌, List, [], ◌∷◌, arith, inl, inr, Bool-cases,
}
use auction_server.Prelude.Int.{ℤ}
use auction_server.Prelude.Text.{Text, text_eq, text_eq_iff, trim_space}
use auction_server.Postgres.{delete_rows}
use auction_server.Users.{Link, UserTables}
use auction_server.Users.Social.{is_link, is_user, follow, unfollow, block, unblock}
use auction_server.Users.Graph.{
  SocialCall, follows, unfollows, blocks, unblocks, after_call, run, Graph, set_edge, can_link,
  effect, replay, accounts, edges_of, graph_of, edges_of-delete, IsReferenced, HasAccounts,
  IsInserted, insert_link-IsInserted, insert_link_refused,
}

graph_eq :
    (f g b c : Text → Text → Bool)
    → ((x y : Text) → f x y ≡ g x y)
    → ((x y : Text) → b x y ≡ c x y)
    → ◌≡◌ {A = Graph}
        (record { following = f; blocking = b })
        (record { following = g; blocking = c })
graph_eq f g b c h k =
    let e : f ≡ g = fun_ext (λ x. fun_ext (λ y. h x y)) in
    let d : b ≡ c = fun_ext (λ x. fun_ext (λ y. k x y)) in cc

module _ (now : ℤ) (x y : Text) (t : UserTables) where
  follow_linked :
      can_link (accounts t) (trim_space x) (trim_space y) ≡ true
      → (after : List Link) × (follow now x y t ≡ (true, record t { follows = after }))
        × IsInserted (trim_space x) (trim_space y) t.follows after
  unfolding can_link follow accounts
  follow_linked h =
      let (links, stored, read) =
        insert_link-IsInserted now (trim_space x) (trim_space y) t t.follows (ground arith) in
      (links, ground arith, read)

  follow_refused :
      HasAccounts t
      → can_link (accounts t) (trim_space x) (trim_space y) ≡ false
      → follow now x y t ≡ (false, t)
  unfolding can_link follow accounts
  follow_refused keys h = elim (Bool-cases (is_user (trim_space x) t && is_user (trim_space y) t)) [
    | inl known ↦ ground arith
    | inr unknown ↦
        let refused =
          insert_link_refused now (trim_space x) (trim_space y) t t.follows unknown
            (keys.followers (trim_space x) (trim_space y)) in
        ground arith
  ]

  block_linked :
      can_link (accounts t) (trim_space x) (trim_space y) ≡ true
      → (after : List Link) × (block now x y t ≡ (
        true,
        record t {
          blocks = after;
          follows =
              delete_rows
                (is_link (trim_space y) (trim_space x))
                (delete_rows (is_link (trim_space x) (trim_space y)) t.follows);
        },
      ))
        × IsInserted (trim_space x) (trim_space y) t.blocks after
  unfolding can_link block accounts
  block_linked h =
      let (links, stored, read) =
        insert_link-IsInserted now (trim_space x) (trim_space y) t t.blocks (ground arith) in
      (links, ground arith, read)

  block_refused :
      HasAccounts t
      → can_link (accounts t) (trim_space x) (trim_space y) ≡ false
      → block now x y t ≡ (false, t)
  unfolding can_link block accounts
  block_refused keys h = elim (Bool-cases (is_user (trim_space x) t && is_user (trim_space y) t)) [
    | inl known ↦ ground arith
    | inr unknown ↦
        let refused =
          insert_link_refused now (trim_space x) (trim_space y) t t.blocks unknown
            (keys.blockers (trim_space x) (trim_space y)) in
        ground arith
  ]

edges_of-delete_both :
    (by of x y : Text) (links : List Link)
    → edges_of (delete_rows (is_link of by) (delete_rows (is_link by of) links)) x y
      ≡ set_edge of by false (set_edge by of false (edges_of links)) x y
edges_of-delete_both by of x y links =
    edges_of-delete of by x y (delete_rows (is_link by of) links)
    ∙ ap (λ (e : Text → Text → Bool). set_edge of by false e x y)
        (fun_ext (λ u. fun_ext (λ v. edges_of-delete by of u v links)))

graph_of-after_call :
    (c : SocialCall) (t : UserTables)
    → HasAccounts t
    → graph_of (after_call c t) ≡ effect (accounts t) c (graph_of t)
unfolding after_call effect graph_of
graph_of-after_call (follows now x y) t keys =
    elim (Bool-cases (can_link (accounts t) (trim_space x) (trim_space y))) [
      | inl linked ↦
          let (links, done, inserted) = follow_linked now x y t linked in
          rw linked (
            ap (λ (r : Bool × UserTables). graph_of r.1) done
            ∙ graph_eq _ _ _ _ inserted.read (λ u v. refl))
      | inr refused ↦
          rw refused
            (ap (λ (r : Bool × UserTables). graph_of r.1) (follow_refused now x y t keys refused))
    ]
graph_of-after_call (unfollows x y) t keys =
    unfold unfollow in
    graph_eq _ _ _ _ (λ u v. edges_of-delete (trim_space x) (trim_space y) u v t.follows)
      (λ u v. refl)
graph_of-after_call (blocks now x y) t keys =
    elim (Bool-cases (can_link (accounts t) (trim_space x) (trim_space y))) [
      | inl linked ↦
          let (links, done, inserted) = block_linked now x y t linked in
          rw linked (
            ap (λ (r : Bool × UserTables). graph_of r.1) done
            ∙ graph_eq _ _ _ _
                (λ u v. edges_of-delete_both (trim_space x) (trim_space y) u v t.follows)
                inserted.read)
      | inr refused ↦
          rw refused
            (ap (λ (r : Bool × UserTables). graph_of r.1) (block_refused now x y t keys refused))
    ]
graph_of-after_call (unblocks x y) t keys =
    unfold unblock in
    graph_eq _ _ _ _ (λ u v. refl)
      (λ u v. edges_of-delete (trim_space x) (trim_space y) u v t.blocks)

set_edge-IsReferenced :
    (account : Text → Bool) (by of : Text) (b : Bool) (edges : Text → Text → Bool)
    → ((x y : Text) → edges x y ≡ true → account x && account y ≡ true)
    → (b ≡ true → account by && account of ≡ true)
    → (x y : Text) → set_edge by of b edges x y ≡ true
    → account x && account y ≡ true
unfolding set_edge
set_edge-IsReferenced account by of b edges known added x y h =
    elim (Bool-cases (text_eq by x && text_eq of y)) [
      | inl same ↦
          let is_by : x ≡ by = ground (arith, text_eq_iff by x, text_eq_iff of y) in
          let is_of : y ≡ of = ground (arith, text_eq_iff by x, text_eq_iff of y) in
          rw (is_by, is_of) (added (rw same at h))
      | inr other ↦ known x y (rw other at h)
    ]

effect-IsReferenced :
    (account : Text → Bool) (c : SocialCall) (g : Graph)
    → IsReferenced account g
    → IsReferenced account (effect account c g)
unfolding effect
effect-IsReferenced account (follows now x y) g h =
    elim (Bool-cases (can_link account (trim_space x) (trim_space y))) [
      | inr refused ↦ rw refused h
      | inl linked ↦ rw linked (record {
        followers =
            set_edge-IsReferenced account (trim_space x) (trim_space y) true g.following h.followers
              (λ _. unfold can_link in ground arith);
        blockers = h.blockers;
      })
    ]
effect-IsReferenced account (unfollows x y) g h = record {
  followers =
      set_edge-IsReferenced account (trim_space x) (trim_space y) false g.following h.followers
        (λ e. cc);
  blockers = h.blockers;
}
effect-IsReferenced account (blocks now x y) g h =
    elim (Bool-cases (can_link account (trim_space x) (trim_space y))) [
      | inr refused ↦ rw refused h
      | inl linked ↦ rw linked (record {
        followers =
            set_edge-IsReferenced account (trim_space y) (trim_space x) false _
              (set_edge-IsReferenced account (trim_space x) (trim_space y) false g.following
                h.followers (λ e. cc))
              (λ e. cc);
        blockers =
            set_edge-IsReferenced account (trim_space x) (trim_space y) true g.blocking h.blockers
              (λ _. unfold can_link in ground arith);
      })
    ]
effect-IsReferenced account (unblocks x y) g h = record {
  followers = h.followers;
  blockers =
      set_edge-IsReferenced account (trim_space x) (trim_space y) false g.blocking h.blockers
        (λ e. cc);
}

db-after_call : (c : SocialCall) (t : UserTables) → (after_call c t).db ≡ t.db
unfolding after_call follow unfollow block unblock
db-after_call (follows now x y) t = ground arith
db-after_call (unfollows x y) t = refl
db-after_call (blocks now x y) t = ground arith
db-after_call (unblocks x y) t = refl

is_user-after_call : (c : SocialCall) (t : UserTables) → accounts (after_call c t) ≡ accounts t
unfolding accounts is_user
is_user-after_call c t = fun_ext (λ u. rw (db-after_call c t) refl)

after_call-HasAccounts :
    (c : SocialCall) (t : UserTables) → HasAccounts t → HasAccounts (after_call c t)
after_call-HasAccounts c t h =
    let before : IsReferenced (accounts t) (graph_of t) =
      unfold accounts graph_of in record { followers = h.followers; blockers = h.blockers } in
    let after : IsReferenced (accounts (after_call c t)) (graph_of (after_call c t)) =
      rw (is_user-after_call c t, graph_of-after_call c t h)
        (effect-IsReferenced _ c (graph_of t) before) in
    unfold accounts graph_of in record { followers = after.followers; blockers = after.blockers }

-- After any sequence of follows, unfollows, blocks and unblocks, the two tables read as a graph
-- are what the calls make of the graph: a link needs two different users with an account, a block
-- also ends the follows in both directions, and ending a link ends only that one. At first every
-- link joins users with an account.
pub run_refines_graph :
    (calls : List SocialCall) (t : UserTables)
    → HasAccounts t
    → graph_of (run calls t) ≡ replay (accounts t) calls (graph_of t)
unfolding run replay
run_refines_graph [] t h = refl
run_refines_graph (c ∷ calls) t h =
    run_refines_graph calls (after_call c t) (after_call-HasAccounts c t h)
    ∙ ap (λ account. replay account calls (graph_of (after_call c t))) (is_user-after_call c t)
    ∙ ap (replay (accounts t) calls) (graph_of-after_call c t h)
