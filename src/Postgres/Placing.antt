-- ===== src/Postgres/Placing.antt =====
-- The transaction of `PlaceBid` and what it leaves in the tables (postgres/auction_repository.go).
use auction_server.Prelude.{
  ◌≡◌, refl, ap, ◌∙◌, ◌⊎◌, ◌||◌, ◌&&◌, Bool, true, false, Option, none, some, arith, inl, inr,
  Bool-cases, Option-cases, is_nil,
}
use auction_server.Prelude.Int.{ℤ, pos, ◌<ℤ◌, eqb_ℤ}
use auction_server.Prelude.Text.{Text, text_eq_self, trim_space, is_blank}
use auction_server.Domain.{Bid, PlaceBidInput}
use auction_server.Postgres.{
  AuctionRow, has_id, bid_rows, BidRow, CooldownRow, Database, auction_row, select_row,
}
use auction_server.Postgres.Bidding.{
  Statement, begin, select_auction, count_bids, insert_bid, set_step, set_cooldown, commit, execute,
  write_bid, bid_row, bidder_of, accepts_bids, bid_of_row, place_bid, delete_bid, upsert_bid,
  upsert_cooldown, is_cooldown_of, set_missing_step, step_of_price,
}
use auction_server.Postgres.Rows.{select_row-update_rows_frame, select_row-upsert_row}
use auction_server.Postgres.BidLists.{last_bid_at_ms, cooldown_at}

-- The attempt whose statements all succeed.
abbrev pub no_fault : Statement → Bool
no_fault statement = false

-- A statement after a point where the attempt has either failed or gone as one without faults.
execute_agrees :
    (fails : Bool) (statement : Database → Database) (attempt ideal : Option Database)
    → (attempt ≡ none) ⊎ (attempt ≡ ideal)
    → (execute fails statement attempt ≡ none)
      ⊎ (execute fails statement attempt ≡ execute false statement ideal)
unfolding execute
execute_agrees fails statement none ideal h = inl refl
execute_agrees true statement (some d) ideal h = inl refl
execute_agrees false statement (some d) none (inl e) = cc
execute_agrees false statement (some d) none (inr e) = cc
execute_agrees false statement (some d) (some d') (inl e) = cc
execute_agrees false statement (some d) (some d') (inr e) = inr (cc)

write_bid_all_or_nothing :
    (fails : Statement → Bool) (b : BidRow) (db : Database)
    → (write_bid fails b db ≡ none) ⊎ (write_bid fails b db ≡ write_bid no_fault b db)
unfolding write_bid
write_bid_all_or_nothing fails b db =
    let inserted =
      execute_agrees (fails insert_bid) (λ d. record d { bids = upsert_bid b d.bids }) _ _
        (execute_agrees (fails count_bids) (λ d. d) (some db) (some db) (inr refl)) in
    execute_agrees (fails commit) (λ d. d) _ _
      (execute_agrees (fails set_cooldown) _ _ _
        (elim (Bool-cases (is_nil (bid_rows b.auction_id db))) [
          | inl first ↦ rw first (execute_agrees (fails set_step) _ _ _ inserted)
          | inr later ↦ rw later inserted
        ]))

-- Whichever statements of its transaction fail, placing a bid answers no bid and leaves the
-- database as it was, or it does all that it does when no statement fails.
pub place_bid_all_or_nothing :
    (fails : Statement → Bool) (now : ℤ) (id : Text) (input : PlaceBidInput) (db : Database)
    → (place_bid fails now id input db ≡ (none, db))
      ⊎ (place_bid fails now id input db ≡ place_bid no_fault now id input db)
unfolding place_bid
place_bid_all_or_nothing fails now id input db =
    elim (Bool-cases (fails begin || fails select_auction)) [
      | inl failed ↦ inl (rw (place_bid, failed) refl)
      | inr begun ↦ elim (Option-cases (auction_row id db)) [
        | inl missing ↦ inl (rw (place_bid, begun, missing) refl)
        | inr (a, found) ↦ elim (Bool-cases (accepts_bids now a)) [
          | inr refused ↦ inl (rw (place_bid, begun, found, refused) refl)
          | inl accepted ↦ elim (write_bid_all_or_nothing fails (bid_row now id input) db) [
            | inl aborted ↦ inl (rw (place_bid, begun, found, accepted, aborted) refl)
            | inr whole ↦ inr (rw (place_bid, begun, found, accepted, whole) refl)
          ]
        ]
      ]
    ]

-- Whether the auction's row takes a bid now.
unfoldable pub is_open : ℤ → Text → Database → Bool
is_open now id db = elim (auction_row id db) [ none ↦ false | some a ↦ accepts_bids now a ]

-- The writing of a step does not change which auctions take bids.
pub is_open-set_missing_step :
    (step : ℤ) (id : Text) (db : Database) (t : ℤ) (j : Text)
    → is_open t j (set_missing_step step id db) ≡ is_open t j db
unfolding is_open set_missing_step auction_row accepts_bids
is_open-set_missing_step step id db t j =
    let missing = λ (a : AuctionRow). has_id id a && eqb_ℤ a.min_bid_step (pos 0) in
    let frame =
      select_row-update_rows_frame missing (has_id j) (λ a. record a { min_bid_step = step })
        db.auctions (λ a. unfold has_id in refl) in
    elim (Option-cases (select_row (has_id j) db.auctions)) [
      | inl gone ↦ ground (arith, frame)
      | inr (a, found) ↦ ground (arith, frame)
    ]

-- What an accepted bid leaves in the tables.
pub record IsPlaced (b : BidRow) (answer : Option Bid) (db after : Database) : Type 0 where
  pub answered : answer ≡ some (bid_of_row b)
  pub bids_after : after.bids ≡ upsert_bid b db.bids
  pub cooldowns_after :
      after.bid_cooldowns
      ≡ upsert_cooldown
          (record {
            auction_id = b.auction_id;
            user_id = b.user_id;
            last_bid_at_ms = b.created_at_ms;
          })
          db.bid_cooldowns
  pub users_after : after.users ≡ db.users
  pub open_after : (t : ℤ) (j : Text) → is_open t j after ≡ is_open t j db

pub place_bid_shut :
    (now : ℤ) (id : Text) (input : PlaceBidInput) (db : Database)
    → is_open now id db ≡ false
    → place_bid no_fault now id input db ≡ (none, db)
unfolding place_bid is_open
place_bid_shut now id input db h = ground arith

pub place_bid_open :
    (now : ℤ) (id : Text) (input : PlaceBidInput) (db : Database)
    → is_open now id db ≡ true
    → IsPlaced
        (bid_row now id input)
        (place_bid no_fault now id input db).0
        db
        (place_bid no_fault now id input db).1
unfolding place_bid write_bid execute set_missing_step is_open auction_row
place_bid_open now id input db h = elim (Option-cases (auction_row id db)) [
  | inl missing ↦ absurd (cc)
  | inr (a, found) ↦
      let accepted : accepts_bids now a ≡ true = ground arith in
      elim (Bool-cases (is_nil (bid_rows id db))) [
        | inl first ↦
            rw (place_bid, found, accepted, first)
              (record {
                answered = refl;
                bids_after = refl;
                cooldowns_after = refl;
                users_after = refl;
                open_after = is_open-set_missing_step (step_of_price input.price) id db;
              })
        | inr later ↦
            rw (place_bid, found, accepted, later)
              (record {
                answered = refl;
                bids_after = refl;
                cooldowns_after = refl;
                users_after = refl;
                open_after = λ t j. refl;
              })
      ]
]

pub place_bid-IsPlaced :
    (fails : Statement → Bool) (now : ℤ) (id : Text) (input : PlaceBidInput) (db : Database)
    {b : Bid}
    → (place_bid fails now id input db).0 ≡ some b
    → IsPlaced
        (bid_row now id input)
        (place_bid fails now id input db).0
        db
        (place_bid fails now id input db).1
place_bid-IsPlaced fails now id input db {b} h =
    elim (place_bid_all_or_nothing fails now id input db) [
      | inl failed ↦ absurd (cc (ap (λ (r : Option Bid × Database). r.0) failed))
      | inr whole ↦ rw whole (elim (Bool-cases (is_open now id db)) [
        | inl open' ↦ place_bid_open now id input db open'
        | inr shut ↦ absurd (
            cc (
              ap (λ (r : Option Bid × Database). r.0)
                (whole ∙ place_bid_shut now id input db shut)))
      ])
    ]

-- The cooldown of an accepted bid is found under its auction and its bidder.
pub cooldown_row : ℤ → Text → Text → CooldownRow
cooldown_row now id user = record { auction_id = id; user_id = user; last_bid_at_ms = now }

pub select_row-placed :
    (now : ℤ) (id : Text) (input : PlaceBidInput) (answer : Option Bid) (db after : Database)
    → IsPlaced (bid_row now id input) answer db after
    → select_row (is_cooldown_of id (bidder_of input)) after.bid_cooldowns
      ≡ some (cooldown_row now id (bidder_of input))
unfolding upsert_cooldown bid_row cooldown_row
select_row-placed now id input answer db after h =
    ap (select_row (is_cooldown_of id (bidder_of input))) h.cooldowns_after
    ∙ select_row-upsert_row (is_cooldown_of id (bidder_of input)) db.bid_cooldowns
        (cooldown_row now id (bidder_of input))
        (unfold is_cooldown_of in ground (arith, text_eq_self id, text_eq_self (bidder_of input)))

-- The store finds the time of a cooldown row that is there.
pub last_bid_at_ms_of_row :
    (id user : Text) (now : ℤ) (db : Database)
    → trim_space id ≡ id
    → is_nil id ≡ false
    → is_blank user ≡ false
    → pos 0 <ℤ now
    → select_row (is_cooldown_of id (trim_space user)) db.bid_cooldowns
      ≡ some (cooldown_row now id (trim_space user))
    → last_bid_at_ms id user db ≡ some now
unfolding last_bid_at_ms cooldown_row
last_bid_at_ms_of_row id user now db trimmed some_id some_user positive row =
    let cool : cooldown_at id (trim_space user) db ≡ some now =
      unfold cooldown_at in ground arith in
    let own : cooldown_at (trim_space id) (trim_space user) db ≡ some now = rw trimmed cool in
    let named : is_nil (trim_space id) ≡ false = rw trimmed some_id in
    rw (last_bid_at_ms, named, some_user, own) refl

-- The cooldown outlives the bid: after a bid is placed at a positive time, by a user whose id is
-- not blank, on an auction whose id is trimmed and not empty, the last bid of the user has that
-- time whatever bid is then deleted.
pub last_bid_at_ms-place_then_delete :
    (fails : Statement → Bool) (now : ℤ) (id : Text) (input : PlaceBidInput) (db : Database)
    {b : Bid}
    → (place_bid fails now id input db).0 ≡ some b
    → pos 0 <ℤ now
    → trim_space id ≡ id
    → is_nil id ≡ false
    → is_blank input.user_id ≡ false
    → (auction user : Text)
    → last_bid_at_ms id input.user_id
        (delete_bid auction user (place_bid fails now id input db).1).1
      ≡ some now
unfolding last_bid_at_ms
last_bid_at_ms-place_then_delete fails now id input db h positive trimmed some_id some_user auction
      user =
    let after = (place_bid fails now id input db).1 in
    let placed = place_bid-IsPlaced fails now id input db h in
    let bidder : bidder_of input ≡ trim_space input.user_id = unfold bidder_of in ground arith in
    let kept : (delete_bid auction user after).1.bid_cooldowns ≡ after.bid_cooldowns =
      unfold delete_bid in ground arith in
    let found = rw bidder at (select_row-placed now id input _ db after placed) in
    last_bid_at_ms_of_row id input.user_id now (delete_bid auction user after).1 trimmed some_id
      some_user positive (rw kept found)
