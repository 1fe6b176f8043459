-- ===== src/Server/AuditPages.antt =====
-- The pages of GET /audit: what a client reads who follows next_before from the newest entry on.
pub mod Order
pub mod Reading
use git_single_tenant_templa.Prelude.{
  ℕ, zero, suc, Option, none, some, List, [], ◌++◌, filter, take, sort_by,
}
use git_single_tenant_templa.Audit.{Filter, page_limit, passes, newer, list_entries}
use git_single_tenant_templa.Exec.{Result, ok, err, Conn}
use git_single_tenant_templa.Model.{Entry}
use git_single_tenant_templa.Server.Handlers.Gated.{audit_page_size, next_before}

abbrev pub entries_of : Result (List Entry) → List Entry
entries_of (ok es) = es
entries_of (err e) = []

-- One page, of the entries before this one.
unfoldable pub page_before : Filter → ℕ → Conn → List Entry
unfolding list_entries page_limit passes newer filter sort_by take
page_before f before c =
    entries_of (list_entries (record f { before = before; limit = audit_page_size }) c).0

-- A page, in front of the pages after it.
abbrev pub with_page : List Entry → Option (List Entry) → Option (List Entry)
with_page page none = none
with_page page (some rest) = some (page ++ rest)

-- The pages from a cursor on: `none` when the answer to the last of `fuel` requests still has a
-- cursor.
unfoldable pub read_pages : ℕ → Filter → ℕ → Conn → Option (List Entry)
unfolding next_before page_before
read_pages zero f before c = none
read_pages (suc fuel) f before c =
    let page = page_before f before c in
    elim (next_before (λ e. e.id) audit_page_size page) [
      | none ↦ some page
      | some cursor ↦ with_page page (read_pages fuel f cursor c)
    ]

-- Everything that the filter lets through, whatever its own cursor is.
unfoldable pub matching : Filter → Conn → List Entry
unfolding passes filter
matching f c = filter (passes (record f { before = 0 })) c.db.audit_log
