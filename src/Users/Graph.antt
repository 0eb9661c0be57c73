-- ===== src/Users/Graph.antt =====
-- The graph of follows and blocks as a specification, and the tables read as one (internal/repository/postgres/user_repository.go).
use auction_server.Prelude.{
  ◌≡◌, refl, Bool, true, false, ◌&&◌, not, List, [], ◌∷◌, ◌++◌, none, some, arith, inl, inr,
  Bool-cases, is_nil, if◌then◌else◌,
}
use auction_server.Prelude.Int.{ℤ}
use auction_server.Prelude.Text.{Text, text_eq, text_eq_iff, trim_space}
use auction_server.Postgres.{any_row, delete_rows}
use auction_server.Users.{Link, UserTables}
use auction_server.Users.Social.{is_link, is_user, insert_link, follow, unfollow, block, unblock}

pub data SocialCall : Type 0 where
  follows : ℤ → Text → Text → SocialCall
  unfollows : Text → Text → SocialCall
  blocks : ℤ → Text → Text → SocialCall
  unblocks : Text → Text → SocialCall

unfoldable pub after_call : SocialCall → UserTables → UserTables
after_call (follows now by of) t = (follow now by of t).1
after_call (unfollows by of) t = unfollow by of t
after_call (blocks now by of) t = (block now by of t).1
after_call (unblocks by of) t = unblock by of t

unfoldable pub run : List SocialCall → UserTables → UserTables
run [] t = t
run (c ∷ calls) t = run calls (after_call c t)

-- The specification: who follows and who blocks whom.
pub record Graph : Type 0 where
  pub following : Text → Text → Bool
  pub blocking : Text → Text → Bool

unfoldable pub set_edge : Text → Text → Bool → (Text → Text → Bool) → Text → Text → Bool
set_edge by of b edges x y = if text_eq by x && text_eq of y then b else edges x y

-- A link needs two different users that have an account.
unfoldable pub can_link : (Text → Bool) → Text → Text → Bool
can_link account by of =
    not (is_nil by) && (not (is_nil of) && (not (text_eq by of) && (account by && account of)))

unfoldable pub effect : (Text → Bool) → SocialCall → Graph → Graph
effect account (follows now x y) g =
    let by = trim_space x in
    let of = trim_space y in
    if can_link account by of then record g { following = set_edge by of true g.following } else g
effect account (unfollows x y) g = record g {
  following = set_edge (trim_space x) (trim_space y) false g.following;
}
effect account (blocks now x y) g =
    let by = trim_space x in
    let of = trim_space y in
    if can_link account by of
    then record {
      following = set_edge of by false (set_edge by of false g.following);
      blocking = set_edge by of true g.blocking;
    }
    else g
effect account (unblocks x y) g = record g {
  blocking = set_edge (trim_space x) (trim_space y) false g.blocking;
}

unfoldable pub replay : (Text → Bool) → List SocialCall → Graph → Graph
replay account [] g = g
replay account (c ∷ calls) g = replay account calls (effect account c g)

-- The users that have an account.
unfoldable pub accounts : UserTables → Text → Bool
unfolding is_user
accounts t u = is_user u t

-- A table of links read as a relation.
abbrev pub edges_of : List Link → Text → Text → Bool
edges_of links by of = any_row (is_link by of) links

-- How the tables read as a graph.
unfoldable pub graph_of : UserTables → Graph
graph_of t = record { following = edges_of t.follows; blocking = edges_of t.blocks }

pub edges_of-delete :
    (by of x y : Text) (links : List Link)
    → edges_of (delete_rows (is_link by of) links) x y ≡ set_edge by of false (edges_of links) x y
unfolding any_row is_link delete_rows set_edge
edges_of-delete by of x y [] = ground arith
edges_of-delete by of x y (l ∷ links) = ground (
  arith,
  edges_of-delete by of x y links,
  text_eq_iff by x,
  text_eq_iff of y,
  text_eq_iff l.by by,
  text_eq_iff l.of of,
  text_eq_iff l.by x,
  text_eq_iff l.of y,
)

pub edges_of-append :
    (now : ℤ) (by of x y : Text) (links : List Link)
    → edges_of (links ++ record { by = by; of = of; created_at_ms = now } ∷ []) x y
      ≡ set_edge by of true (edges_of links) x y
unfolding any_row is_link set_edge
edges_of-append now by of x y [] = ground arith
edges_of-append now by of x y (l ∷ links) = ground (arith, edges_of-append now by of x y links)

-- The foreign keys: the ends of a link have accounts.
pub record IsReferenced (account : Text → Bool) (g : Graph) : Type 0 where
  pub followers : (x y : Text) → g.following x y ≡ true → account x && account y ≡ true
  pub blockers : (x y : Text) → g.blocking x y ≡ true → account x && account y ≡ true

pub record HasAccounts (t : UserTables) : Type 0 where
  pub followers : (x y : Text) → edges_of t.follows x y ≡ true → is_user x t && is_user y t ≡ true
  pub blockers : (x y : Text) → edges_of t.blocks x y ≡ true → is_user x t && is_user y t ≡ true

-- What an insertion makes of a table of links.
pub record IsInserted (by of : Text) (links after : List Link) : Type 0 where
  pub read : (x y : Text) → edges_of after x y ≡ set_edge by of true (edges_of links) x y

edges_of-present :
    (by of x y : Text) (links : List Link)
    → edges_of links by of ≡ true
    → edges_of links x y ≡ set_edge by of true (edges_of links) x y
unfolding set_edge
edges_of-present by of x y links h = elim (Bool-cases (text_eq by x && text_eq of y)) [
  | inr other ↦ rw other refl
  | inl same ↦
      let is_by : x ≡ by = ground (arith, text_eq_iff by x, text_eq_iff of y) in
      let is_of : y ≡ of = ground (arith, text_eq_iff by x, text_eq_iff of y) in
      rw same (rw (is_by, is_of) h)
]

pub insert_link-IsInserted :
    (now : ℤ) (by of : Text) (t : UserTables) (links : List Link)
    → is_user by t && is_user of t ≡ true
    → (after : List Link) × (insert_link now by of t links ≡ some after)
      × IsInserted by of links after
unfolding insert_link
insert_link-IsInserted now by of t links known = elim (Bool-cases (any_row (is_link by of) links)) [
  | inl old ↦ (
    links,
    rw (insert_link, old) refl,
    record { read = λ x y. edges_of-present by of x y links old },
  )
  | inr new ↦ (
    links ++ record { by = by; of = of; created_at_ms = now } ∷ [],
    rw (insert_link, new, known) refl,
    record { read = λ x y. edges_of-append now by of x y links },
  )
]

pub insert_link_refused :
    (now : ℤ) (by of : Text) (t : UserTables) (links : List Link)
    → is_user by t && is_user of t ≡ false
    → (edges_of links by of ≡ true → is_user by t && is_user of t ≡ true)
    → insert_link now by of t links ≡ none
unfolding insert_link
insert_link_refused now by of t links unknown keys =
    elim (Bool-cases (any_row (is_link by of) links)) [
      | inl old ↦ cc (keys old)
      | inr new ↦ rw (insert_link, new, unknown) refl
    ]
