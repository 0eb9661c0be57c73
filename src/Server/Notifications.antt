-- ===== src/Server/Notifications.antt =====
-- The endpoints of a user's notifications (internal/http/notifications.go) and the methods of the
-- moderation service that they call (internal/service/moderation_service.go). The routes are
-- registered only where the moderation service is there. A table of `none` is a service without
-- notifications.
use auction_server.Prelude.{Bool, false, List, [], Option, none, some, if◌then◌else◌, is_nil}
use auction_server.Prelude.Int.{ℤ, pos, leb_ℤ}
use auction_server.Prelude.Text.{Text, text, trim_space}
use auction_server.Prelude.Strings.{atoi, trim_prefix, trim_slashes}
use auction_server.Postgres.Cursor.{parse_int}
use auction_server.Postgres.Notifications.{
  NotificationTable, UserNotification, list_for_user, mark_read,
}
use auction_server.Server.{
  Request, Response, done, method_get, method_not_allowed, method_post, respond, write_error,
}

pub data NotificationReply : Type 0 where
  notifications : List UserNotification → NotificationReply
  answered : Response → NotificationReply

-- `ListNotifications`, whose nil the handler shows as an empty list.
unfoldable pub list_notifications : Text → ℤ → Option NotificationTable → List UserNotification
list_notifications user limit none = []
list_notifications user limit (some t) = list_for_user user limit t

-- `MarkNotificationRead`
unfoldable pub mark_notification_read :
    ℤ → Text → ℤ → Option NotificationTable → Bool × Option NotificationTable
mark_notification_read now user id none = (false, none)
mark_notification_read now user id (some t) =
    let (found, t') = mark_read now user id t in (found, some t')

-- `handleMyNotifications`
unfoldable pub handle_my_notifications : Request → Option NotificationTable → NotificationReply
unfolding list_notifications
handle_my_notifications req t =
    let user = trim_space (req.query (text "userId")) in
    elim req.method [
      | method_get ↦
          if is_nil user
          then answered (write_error 400 "userId is required")
          else notifications (list_notifications user (atoi (req.query (text "limit"))) t)
      | _ ↦ answered method_not_allowed
    ]

-- The number at the end of the path, where it can be one.
unfoldable pub notification_id : Text → Option ℤ
notification_id path =
    elim (parse_int (trim_slashes (trim_prefix path (text "/v1/me/notifications/")))) [
      | none ↦ none
      | some id ↦ if leb_ℤ id (pos 0) then none else some id
    ]

unfoldable pub post_read :
    ℤ → Text → Option ℤ → Option NotificationTable → NotificationReply × Option NotificationTable
unfolding mark_notification_read
post_read now user none t = (answered (write_error 400 "invalid notification id"), t)
post_read now user (some id) t =
    let (found, t') = mark_notification_read now user id t in
    (
      answered (
          if found
          then respond 200 (done (text "ok"))
          else write_error 404 "notification not found"),
      t',
    )

-- `handleMyNotificationByID`
unfoldable pub handle_my_notification_by_id :
    ℤ → Request → Option NotificationTable → NotificationReply × Option NotificationTable
unfolding notification_id post_read
handle_my_notification_by_id now req t =
    let user = trim_space (req.query (text "userId")) in
    elim req.method [
      | method_post ↦
          if is_nil user
          then (answered (write_error 400 "userId is required"), t)
          else post_read now user (notification_id req.path) t
      | _ ↦ (answered method_not_allowed, t)
    ]
