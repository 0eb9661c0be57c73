-- ===== src/Postgres/Notifications.antt =====
-- The notifications of users in the PostgreSQL store (internal/repository/postgres/notifications.go).
use auction_server.Prelude.{
  ℕ, zero, suc, ◌≡◌, refl, Bool, true, false, ◌&&◌, List, [], ◌∷◌, ◌++◌, keep, map, take, Option,
  none, some, is_nil, ltb, if◌then◌else◌, arith,
}
use auction_server.Prelude.Int.{ℤ, pos, negsuc, add, eqb_ℤ, ltb_ℤ}
use auction_server.Prelude.Text.{Text, text_eq}
use auction_server.Prelude.Sort.{sort}
use auction_server.Postgres.{any_row, update_rows}

pub record UserNotification : Type 0 where
  pub id : ℤ
  pub user_id : Text
  pub kind : Text
  pub title : Text
  pub body : Text
  pub ref_auction_id : Text
  pub read_at_ms : ℤ
  pub created_at_ms : ℤ

-- A row of `user_notifications`: the notification, and when it was read.
pub record NotificationRow : Type 0 where
  pub stored : UserNotification
  pub read_at : Option ℤ

pub record NotificationTable : Type 0 where
  pub rows : List NotificationRow
  pub next_id : ℤ

-- `Create`. The column of the reading time is not written; the answer keeps the given one.
unfoldable pub create :
    ℤ → UserNotification → NotificationTable → Option UserNotification × NotificationTable
create now n t =
    let made : UserNotification = record n {
      id = t.next_id;
      created_at_ms = if eqb_ℤ n.created_at_ms (pos 0) then now else n.created_at_ms;
    } in
    if is_nil n.user_id then (none, t) else (
      some made,
      record {
        rows = t.rows ++ record { stored = made; read_at = none } ∷ [];
        next_id = add t.next_id (pos 1);
      },
    )

unfoldable pub scan_notification : NotificationRow → UserNotification
scan_notification r = record r.stored {
  read_at_ms = elim r.read_at [ none ↦ pos 0 | some at ↦ at ];
}

unfoldable pub notification_limit : ℤ → ℕ
notification_limit (pos zero) = 50
notification_limit (pos (suc n)) = if ltb 100 (suc n) then 100 else suc n
notification_limit (negsuc n) = 50

unfoldable pub by_newest : UserNotification → UserNotification → Bool
by_newest a b = ltb_ℤ b.created_at_ms a.created_at_ms

-- `ListForUser`
unfoldable pub list_for_user : Text → ℤ → NotificationTable → List UserNotification
unfolding scan_notification notification_limit by_newest
list_for_user user limit t =
    if is_nil user
    then []
    else take (notification_limit limit) (
        sort by_newest (
          map scan_notification
            (keep (λ (r : NotificationRow). text_eq r.stored.user_id user) t.rows)))

unfoldable pub is_unread : Text → ℤ → NotificationRow → Bool
is_unread user id r =
    eqb_ℤ r.stored.id id
    && (text_eq r.stored.user_id user && (elim r.read_at [ none ↦ true | some at ↦ false ]))

-- `MarkRead`
unfoldable pub mark_read : ℤ → Text → ℤ → NotificationTable → Bool × NotificationTable
unfolding is_unread any_row update_rows
mark_read now user id t = (
  any_row (is_unread user id) t.rows,
  record t { rows = update_rows (is_unread user id) (λ r. record r { read_at = some now }) t.rows },
)

nothing_unread :
    (now : ℤ) (user : Text) (id : ℤ) (rows : List NotificationRow)
    → any_row
        (is_unread user id)
        (update_rows (is_unread user id) (λ r. record r { read_at = some now }) rows)
      ≡ false
unfolding any_row update_rows is_unread
nothing_unread now user id [] = refl
nothing_unread now user id (r ∷ rows) = ground (arith, nothing_unread now user id rows)

-- A notification that was marked as read is not marked again.
pub mark_read_once :
    (now later : ℤ) (user : Text) (id : ℤ) (t : NotificationTable)
    → (mark_read later user id (mark_read now user id t).1).0 ≡ false
mark_read_once now later user id t = unfold mark_read in nothing_unread now user id t.rows
