-- ===== src/Server/AuditPages/Reading.antt =====
-- Following next_before reads the whole log.
use git_single_tenant_templa.Prelude.{
  ℕ, zero, suc, ◌<◌, ◌≡◌, refl, sym, ap, ◌∙◌, ◌⊎◌, inl, inr, true, false, Option, none, some, List,
  arith, ◌==◌, Bool-cases, Option-cases, length, take,
}
use git_single_tenant_templa.Audit.{Filter, descends}
use git_single_tenant_templa.Exec.{Conn}
use git_single_tenant_templa.Model.{Entry}
use git_single_tenant_templa.Server.AuditPages.{page_before, with_page, read_pages, matching}
use git_single_tenant_templa.Server.AuditPages.Order.{
  from_cursor, drop, descends-filter, filter-all_true, take-drop, take_short, LeavesRest,
  last_of-LeavesRest, page-after, from_cursor-last, descends-filter_below, length-take-drop,
  last_of-none,
}
use git_single_tenant_templa.Server.Handlers.Gated.{audit_page_size, last_of, next_before}

-- The rest of the reading, after a page.
abbrev read_on : ℕ → Filter → Conn → Option ℕ → List Entry → Option (List Entry)
read_on fuel f c none page = some page
read_on fuel f c (some cursor) page = with_page page (read_pages fuel f cursor c)

read_pages-suc :
    (fuel : ℕ) (f : Filter) (before : ℕ) (c : Conn)
    → read_pages (suc fuel) f before c
      ≡ read_on fuel f c
          (next_before (λ e. e.id) audit_page_size (page_before f before c))
          (page_before f before c)
unfolding read_pages
read_pages-suc fuel f before c =
    go (next_before (λ e. e.id) audit_page_size (page_before f before c))
  where
    page : List Entry
    page = page_before f before c

    go :
        (o : Option ℕ)
        → (elim o [ none ↦ some page | some cursor ↦ with_page page (read_pages fuel f cursor c) ])
          ≡ read_on fuel f c o page
    go none = refl
    go (some cursor) = refl

next_before-short :
    (size : ℕ) (page : List Entry)
    → (length page == size) ≡ false
    → next_before (λ e. e.id) size page ≡ none
unfolding next_before
next_before-short size page h = rw h

next_before-full :
    (size : ℕ) (page : List Entry) (x : Entry)
    → (length page == size) ≡ true
    → last_of page ≡ some x
    → next_before (λ e. e.id) size page ≡ some x.id
unfolding next_before
next_before-full size page x h k = rw (h, k)

-- With this fuel, the pages from any cursor on give everything behind it.
abbrev ReadsAll : ℕ → Filter → Conn → Type 0
ReadsAll fuel f c =
    (before m : ℕ)
    → descends m (from_cursor before (matching f c)) ≡ true
    → (before ≡ 0) ⊎ (m ≡ before)
    → length (from_cursor before (matching f c)) < fuel
    → read_pages fuel f before c ≡ some (from_cursor before (matching f c))

ReadsAll-suc :
    (fuel : ℕ) (f : Filter) (n : ℕ) (c : Conn)
    → descends n c.db.audit_log ≡ true
    → ReadsAll fuel f c
    → ReadsAll (suc fuel) f c
ReadsAll-suc fuel f n c log again before m order at enough =
    read_pages-suc fuel f before c
    ∙ ap (λ page. read_on fuel f c (next_before (λ e. e.id) audit_page_size page) page)
        (page-after f before n c log)
    ∙ followed
  where
    rest : List Entry
    rest = from_cursor before (matching f c)

    page : List Entry
    page = take audit_page_size rest

    following :
        (x : Entry)
        → LeavesRest audit_page_size m rest x
        → (length page == audit_page_size) ≡ true
        → read_pages fuel f x.id c ≡ some (drop audit_page_size rest)
    following x (cut, positive, below) full =
        let cursor : from_cursor x.id (matching f c) ≡ drop audit_page_size rest =
          from_cursor-last before x.id (matching f c) positive
            (elim at [ inl first ↦ inl first | inr bound ↦ inr (ground (arith, bound, below)) ])
          ∙ cut in
        let shorter : length (drop audit_page_size rest) < fuel =
          ground (arith, length-take-drop audit_page_size rest, enough, full) in
        again x.id x.id
          (rw cursor (ap (descends x.id) (sym cut) ∙ descends-filter_below x.id m rest order))
          (inr refl) (rw cursor shorter)
        ∙ ap some cursor

    followed : read_on fuel f c (next_before (λ e. e.id) audit_page_size page) page ≡ some rest
    followed = elim (Bool-cases (length page == audit_page_size)) [
      | inr short ↦
          ap (λ o. read_on fuel f c o page) (next_before-short audit_page_size page short)
          ∙ ap some (take_short audit_page_size rest short)
      | inl full ↦ elim (Option-cases (last_of page)) [
        | inl nothing ↦ ground (arith, last_of-none page nothing)
        | inr (x, is_last) ↦
            ap (λ o. read_on fuel f c o page) (next_before-full audit_page_size page x full is_last)
            ∙ ap (with_page page)
                (following x (last_of-LeavesRest audit_page_size m rest x order is_last) full)
            ∙ ap some (take-drop audit_page_size rest)
      ]
    ]

enough_fuel :
    (fuel : ℕ) (f : Filter) (n : ℕ) (c : Conn)
    → descends n c.db.audit_log ≡ true
    → ReadsAll fuel f c
enough_fuel zero f n c log = λ before m order at enough. ground arith
enough_fuel (suc fuel) f n c log = ReadsAll-suc fuel f n c log (enough_fuel fuel f n c log)

-- Whoever reads the audit log from the newest entry on, and follows next_before, reaches an answer
-- without a cursor after one request more than there are matching entries at most, and has then seen
-- every entry that the filter lets through exactly once, newest first: when the log is in the order
-- of its ids.
pub read_pages-matching :
    (f : Filter) (n : ℕ) (c : Conn)
    → descends n c.db.audit_log ≡ true
    → read_pages (suc (length (matching f c))) f 0 c ≡ some (matching f c)
read_pages-matching f n c log =
    enough_fuel _ f n c log 0 n ordered (inl refl) (ground (arith, ap length all_of))
    ∙ ap some all_of
  where
    all_of : from_cursor 0 (matching f c) ≡ matching f c
    all_of =
        filter-all_true _ n (matching f c)
          (unfold matching in descends-filter _ n c.db.audit_log log) (λ e h. refl)

    ordered : descends n (from_cursor 0 (matching f c)) ≡ true
    ordered = rw all_of (unfold matching in descends-filter _ n c.db.audit_log log)
