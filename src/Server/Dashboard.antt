-- ===== src/Server/Dashboard.antt =====
-- The administrators' lists (internal/http/admin_users.go, admin_reports.go and admin_tickets.go) and
-- `PostPeriodCounts` of internal/service/auction_service.go, which only the PostgreSQL store answers.
use auction_server.Prelude.{ℕ, Bool, List, [], Option, none, some}
use auction_server.Prelude.Int.{ℤ}
use auction_server.Prelude.Text.{Text, text, trim_space}
use auction_server.Prelude.Strings.{atoi}
use auction_server.Settings.{Config}
use auction_server.Postgres.{Database}
use auction_server.Postgres.Chat.{ChatTables}
use auction_server.Dashboard.{
  AdminPeriodCount, AdminTicketThread, AdminUsersPage, list_for_admin, list_support_threads,
  period_counts, post_period_counts, registration_period_counts,
}
use auction_server.Server.{Request, Response, method_get, method_not_allowed, write_error}
use auction_server.Server.Admin.{admin_cors, require_admin}

-- `AdminReportsResponse`
pub record AdminReports : Type 0 where
  pub posts : List AdminPeriodCount
  pub registrations : List AdminPeriodCount

pub data DashboardReply : Type 0 where
  users_page : AdminUsersPage → DashboardReply
  reports : AdminReports → DashboardReply
  ticket_threads : List AdminTicketThread → DashboardReply
  answered : Response → DashboardReply

-- The tests that precede each list: the preflight, the method and the key.
unfoldable pub admin_get : Config → Request → DashboardReply → DashboardReply
unfolding admin_cors require_admin
admin_get cfg req reply = elim (admin_cors req) [
  | some preflight ↦ answered preflight
  | none ↦ elim req.method [
    | method_get ↦ elim (require_admin cfg req) [ some refused ↦ answered refused | none ↦ reply ]
    | _ ↦ answered method_not_allowed
  ]
]

-- `PostPeriodCounts` of the service; `none` is a store that does not count.
unfoldable pub service_period_counts : ℤ → Option Database → List AdminPeriodCount
unfolding post_period_counts period_counts
service_period_counts now none = period_counts now []
service_period_counts now (some db) = post_period_counts now db

-- `handleAdminReportsOverview`; `none` for the users is a server without them.
unfoldable pub handle_admin_reports_overview :
    Config → (posts_at users_at : ℤ) → Request → Option Database → Option Database → DashboardReply
unfolding admin_get service_period_counts registration_period_counts
handle_admin_reports_overview cfg posts_at users_at req store users = admin_get cfg req (
    reports (record {
      posts = service_period_counts posts_at store;
      registrations = elim users [ none ↦ [] | some db ↦ registration_period_counts users_at db ];
    }))

module _ (lower : Text → Text) (go_lower : ℕ → ℕ) (after : Text → Text → Bool) where
  -- `handleAdminUsers`
  unfoldable pub handle_admin_users : Config → Request → Option Database → DashboardReply
  unfolding admin_get list_for_admin
  handle_admin_users cfg req users = admin_get cfg req (elim users [
    | none ↦ answered (write_error 503 "users not available")
    | some db ↦ users_page (
        list_for_admin lower go_lower after (trim_space (req.query (text "search")))
          (atoi (trim_space (req.query (text "limit"))))
          (atoi (trim_space (req.query (text "offset")))) db)
  ])

  -- `handleAdminTicketThreads`
  unfoldable pub handle_admin_ticket_threads : Config → Request → Option ChatTables → DashboardReply
  unfolding admin_get list_support_threads
  handle_admin_ticket_threads cfg req chat = admin_get cfg req (elim chat [
    | none ↦ answered (write_error 503 "chat not available")
    | some t ↦ ticket_threads (
        list_support_threads lower go_lower after (trim_space (req.query (text "search")))
          (atoi (trim_space (req.query (text "limit")))) t)
  ])
