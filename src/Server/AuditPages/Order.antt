-- ===== src/Server/AuditPages/Order.antt =====
-- Entries in the order of their ids: what sorting, filtering and cutting a page do to them.
use git_single_tenant_templa.Prelude.{
  ℕ, zero, suc, ◌+◌, ◌≡◌, refl, ap, ◌∙◌, subst, ◌⊎◌, inl, inr, Bool, true, false, ◌&&◌, ◌||◌, none,
  some, List, [], ◌∷◌, ◌++◌, arith, ltb, leb, ◌==◌, length, filter, take, insert_by, sort_by,
}
use git_single_tenant_templa.Audit.{Filter, page_limit, passes, newer, list_entries, descends}
use git_single_tenant_templa.Command.{start}
use git_single_tenant_templa.Exec.{Conn}
use git_single_tenant_templa.Model.{Entry}
use git_single_tenant_templa.Server.AuditPages.{page_before, matching}
use git_single_tenant_templa.Server.Handlers.Gated.{audit_page_size, last_of}

-- What is left behind a cursor.
abbrev pub from_cursor : ℕ → List Entry → List Entry
from_cursor before es = filter (λ e. before == 0 || ltb e.id before) es

unfoldable pub drop : ℕ → List Entry → List Entry
drop zero es = es
drop (suc n) [] = []
drop (suc n) (e ∷ es) = drop n es

pub descends_mono :
    (m n : ℕ) (es : List Entry) → leb m n ≡ true → descends m es ≡ true → descends n es ≡ true
unfolding descends
descends_mono m n [] h k = refl
descends_mono m n (e ∷ es) h k = ground arith

pub descends-filter :
    (p : Entry → Bool) (n : ℕ) (es : List Entry)
    → descends n es ≡ true
    → descends n (filter p es) ≡ true
unfolding descends filter
descends-filter p n [] h = refl
descends-filter p n (e ∷ es) h =
    ground (arith, descends-filter p e.id es, descends_mono e.id n (filter p es))

pub insert_by-first :
    (e : Entry) (es : List Entry) → descends e.id es ≡ true → insert_by newer e es ≡ e ∷ es
unfolding descends insert_by newer
insert_by-first e [] h = refl
insert_by-first e (f ∷ es) h = ground arith

pub sort_by-descends : (n : ℕ) (es : List Entry) → descends n es ≡ true → sort_by newer es ≡ es
unfolding descends sort_by
sort_by-descends n [] h = refl
sort_by-descends n (e ∷ es) h =
    let tail : descends e.id es ≡ true = ground arith in
    ap (insert_by newer e) (sort_by-descends e.id es tail) ∙ insert_by-first e es tail

pub filter-filter :
    {A : Type 0} (p q r : A → Bool) (xs : List A)
    → ((x : A) → r x ≡ (p x && q x))
    → filter r xs ≡ filter p (filter q xs)
unfolding filter
filter-filter p q r [] h = refl
filter-filter p q r (x ∷ xs) h = ground (arith, h x, filter-filter p q r xs h)

pub filter-all_true :
    (p : Entry → Bool) (n : ℕ) (es : List Entry)
    → descends n es ≡ true
    → ((e : Entry) → ltb e.id n ≡ true → p e ≡ true)
    → filter p es ≡ es
unfolding descends filter
filter-all_true p n [] h k = refl
filter-all_true p n (e ∷ es) h k =
    let tail : descends e.id es ≡ true = ground arith in
    ground (arith, k e, filter-all_true p e.id es tail (λ x lt. k x (ground arith)))

pub take-drop : (k : ℕ) (es : List Entry) → take k es ++ drop k es ≡ es
unfolding take drop
take-drop zero es = refl
take-drop (suc k) [] = refl
take-drop (suc k) (e ∷ es) = ap (λ xs. e ∷ xs) (take-drop k es)

pub take_short : (k : ℕ) (es : List Entry) → (length (take k es) == k) ≡ false → take k es ≡ es
unfolding take
take_short zero es h = cc
take_short (suc k) [] h = refl
take_short (suc k) (e ∷ es) h = ap (λ xs. e ∷ xs) (take_short k es (ground arith))

pub from_some : (e x : Entry) → some e ≡ some x → e ≡ x
from_some e x h = ap (λ o. elim o [ none ↦ e | some y ↦ y ]) h

-- What is before the last entry of a page is what the page leaves.
abbrev pub LeavesRest : ℕ → ℕ → List Entry → Entry → Type 0
LeavesRest k n es x =
    (filter (λ e. ltb e.id x.id) es ≡ drop k es) × (ltb 0 x.id ≡ true) × (ltb x.id n ≡ true)

pub last_of-LeavesRest :
    (k n : ℕ) (es : List Entry) (x : Entry)
    → descends n es ≡ true
    → last_of (take k es) ≡ some x
    → LeavesRest k n es x
unfolding take drop descends last_of filter
last_of-LeavesRest zero n es x h e = cc
last_of-LeavesRest (suc k) n [] x h e = cc
last_of-LeavesRest (suc zero) n (a ∷ es) x h e =
    let tail : descends a.id es ≡ true = ground arith in
    subst (LeavesRest 1 n (a ∷ es)) (from_some a x e) (
      ground (arith, filter-all_true (λ f. ltb f.id a.id) a.id es tail (λ f lt. lt)),
      ground arith,
      ground arith,
    )
last_of-LeavesRest (suc (suc k)) n (a ∷ []) x h e =
    subst (LeavesRest (suc (suc k)) n (a ∷ [])) (from_some a x e)
      (ground arith, ground arith, ground arith)
last_of-LeavesRest (suc (suc k)) n (a ∷ (b ∷ es)) x h e =
    let tail : descends a.id (b ∷ es) ≡ true = ground arith in
    let (rest, positive, below) = last_of-LeavesRest (suc k) a.id (b ∷ es) x tail e in
    (ground (arith, rest, below), positive, ground (arith, below))

-- A page of entries that are in order.
pub page-after :
    (f : Filter) (before n : ℕ) (c : Conn)
    → descends n c.db.audit_log ≡ true
    → page_before f before c ≡ take audit_page_size (from_cursor before (matching f c))
unfolding page_before list_entries page_limit matching passes
page-after f before n c h = ap (take audit_page_size) (
    sort_by-descends n _ (
      descends-filter (passes (record f { before = before; limit = audit_page_size })) n
        c.db.audit_log h)
    ∙ split)
  where
    split :
        filter (passes (record f { before = before; limit = audit_page_size })) c.db.audit_log
        ≡ from_cursor before (filter (passes (record f { before = 0 })) c.db.audit_log)
    split =
        filter-filter (λ e. before == 0 || ltb e.id before) (passes (record f { before = 0 }))
          (passes (record f { before = before; limit = audit_page_size })) c.db.audit_log
          (λ e. ground arith)

pub from_cursor-last :
    (before cursor : ℕ) (es : List Entry)
    → ltb 0 cursor ≡ true
    → (before ≡ 0) ⊎ (ltb cursor before ≡ true)
    → from_cursor cursor es ≡ filter (λ e. ltb e.id cursor) (from_cursor before es)
from_cursor-last before cursor es positive (inl start) =
    filter-filter (λ e. ltb e.id cursor) (λ e. before == 0 || ltb e.id before)
      (λ e. cursor == 0 || ltb e.id cursor) es (λ e. ground arith)
from_cursor-last before cursor es positive (inr below) =
    filter-filter (λ e. ltb e.id cursor) (λ e. before == 0 || ltb e.id before)
      (λ e. cursor == 0 || ltb e.id cursor) es (λ e. ground arith)

pub descends-filter_below :
    (cursor n : ℕ) (es : List Entry)
    → descends n es ≡ true
    → descends cursor (filter (λ e. ltb e.id cursor) es) ≡ true
unfolding descends filter
descends-filter_below cursor n [] h = refl
descends-filter_below cursor n (e ∷ es) h =
    ground
      (arith, descends-filter (λ f. ltb f.id cursor) e.id es, descends-filter_below cursor e.id es)

pub length-take-drop :
    (k : ℕ) (es : List Entry) → length (take k es) + length (drop k es) ≡ length es
unfolding take drop
length-take-drop zero es = omega arith
length-take-drop (suc k) [] = refl
length-take-drop (suc k) (e ∷ es) = ground (arith, length-take-drop k es)

pub last_of-none : (es : List Entry) → last_of es ≡ none → length es ≡ 0
unfolding last_of
last_of-none [] h = refl
last_of-none (e ∷ []) h = cc
last_of-none (e ∷ (g ∷ es)) h = cc (last_of-none (g ∷ es) h)
