-- ===== src/Web/AuditLog/Laws.antt =====
-- apps/web/src/pages/AuditLog.tsx: the pages of the log.
use morphia.Common.{
  ℕ, zero, suc, ◌+◌, ◌-◌, ◌*◌, ◌≤◌, ◌≡◌, refl, sym, ap, ◌∙◌, List, [], ◌∷◌, ◌++◌, take, length,
  arith,
}
use morphia.Types.{AuditEvent}
use morphia.Web.AuditLog.{
  page_size, Page, initial, filtered, min, total_pages, drop, slice, page_items, Click,
  set_category, set_event_type, previous, next, retry, in_stream, clicked,
}

-- The pages from the first one on, one after another.
abbrev pub pages : ℕ → List AuditEvent → List AuditEvent
pages zero items = []
pages (suc n) items = pages n items ++ page_items (suc n) items

take_nil : {A : Type 0} (j : ℕ) → take {A = A} j [] ≡ []
take_nil zero = refl
take_nil (suc j) = refl

take-drop : {A : Type 0} (n k : ℕ) (xs : List A) → take n xs ++ take k (drop n xs) ≡ take (n + k) xs
take-drop {A} zero k xs = ap (λ j. take j xs) (omega arith)
take-drop (suc n) k [] = take_nil k ∙ sym (take_nil (suc n + k))
take-drop (suc n) k (x ∷ xs) =
    let e : suc (n + k) ≡ suc n + k = omega arith in
    ap (λ ys. x ∷ ys) (take-drop n k xs) ∙ ap (λ j. take j (x ∷ xs)) e

take_all : {A : Type 0} (n : ℕ) (xs : List A) → length xs ≤ n → take n xs ≡ xs
take_all zero [] h = refl
take_all (suc n) [] h = refl
take_all zero (x ∷ xs) h = let no_room : ⊥ = omega arith in elim no_room [ ]
take_all (suc n) (x ∷ xs) h = ap (λ ys. x ∷ ys) (take_all n xs (omega arith))

-- The rows of a page, counted from the row that it starts at.
page_items-take :
    (n : ℕ) (items : List AuditEvent)
    → page_items (suc n) items ≡ take page_size (drop (n * page_size) items)
unfolding page_items slice
page_items-take n items =
    let start : (suc n - 1) * page_size ≡ n * page_size = omega arith in
    let rows : suc n * page_size - n * page_size ≡ page_size = omega arith in rw (start, rows) refl

pages-take : (n : ℕ) (items : List AuditEvent) → pages n items ≡ take (n * page_size) items
pages-take zero items = refl
pages-take (suc n) items =
    rw (pages-take n items, page_items-take n items)
      (take-drop (n * page_size) page_size items
        ∙ ap (λ j. take j items)
            (let e : n * page_size + page_size ≡ suc n * page_size = omega arith in e))

-- A whole number of pages is enough.
pages_enough : (n : ℕ) → n ≤ total_pages n * page_size
unfolding total_pages
pages_enough n = ground arith

length-take-min : {A : Type 0} (k : ℕ) (xs : List A) → length (take k xs) ≡ min k (length xs)
length-take-min zero xs = ground arith
length-take-min (suc k) [] = ground arith
length-take-min (suc k) (x ∷ xs) = ground (arith, length-take-min k xs)

length-drop : {A : Type 0} (n : ℕ) (xs : List A) → length (drop n xs) ≡ length xs - n
length-drop zero xs = omega arith
length-drop (suc n) [] = omega arith
length-drop (suc n) (x ∷ xs) = omega (arith, length-drop n xs)

-- The pages from the first to the last, one after another, are the filtered list, each event once.
pub pages_lem : (items : List AuditEvent) → pages (total_pages (length items)) items ≡ items
pages_lem items =
    pages-take (total_pages (length items)) items ∙ take_all _ items (pages_enough (length items))

page_rows :
    (n : ℕ) (items : List AuditEvent)
    → length (page_items (suc n) items) ≡ min page_size (length items - n * page_size)
page_rows n items =
    rw
      (
        page_items-take n items,
        length-take-min page_size (drop (n * page_size) items),
        length-drop (n * page_size) items,
      )
      refl

-- From the first page to the last, the rows that the line below the table counts are those of the page, which
-- has at most twenty-five, and it has a row wherever there is any event.
pub page_items_lem :
    (items : List AuditEvent) (page : ℕ)
    → 1 ≤ page
    → page ≤ total_pages (length items)
    → (length (page_items page items) + ((page - 1) * page_size)
        ≡ min (page * page_size) (length items))
      × (length (page_items page items) ≤ page_size)
      × (min 1 (length items) ≤ length (page_items page items))
unfolding total_pages
page_items_lem items (suc n) first last = (
  ground (arith, page_rows n items),
  ground (arith, page_rows n items),
  ground (arith, page_rows n items),
)
page_items_lem items zero first last = let no_page : ⊥ = omega arith in elim no_page [ ]

-- The page that is shown is one of those that there are.
pub record IsOnPage (events : List AuditEvent) (s : Page) : Type 0 where
  pub first : 1 ≤ s.page
  pub last : s.page ≤ total_pages (length (filtered events s))

total_pages_pos : (n : ℕ) → 1 ≤ total_pages n
unfolding total_pages
total_pages_pos n = ground arith

clicked-IsOnPage :
    (events : List AuditEvent) (c : Click) (s : Page)
    → IsOnPage events s
    → IsOnPage events (clicked events c s)
unfolding clicked filtered
clicked-IsOnPage events (set_category c) s on = record {
  first = omega arith;
  last = total_pages_pos _;
}
clicked-IsOnPage events (set_event_type t) s on = record {
  first = omega arith;
  last = total_pages_pos _;
}
clicked-IsOnPage events previous s on = record {
  first = ground arith;
  last = ground (arith, on.first, on.last);
}
clicked-IsOnPage events next s on = record {
  first = ground (arith, total_pages_pos (length (filtered events s)));
  last = ground arith;
}
clicked-IsOnPage events retry s on = on
clicked-IsOnPage events (in_stream f) s on = on

abbrev pub clicks : List AuditEvent → List Click → Page → Page
clicks events [] s = s
clicks events (c ∷ cs) s = clicks events cs (clicked events c s)

clicks_keep :
    (events : List AuditEvent) (cs : List Click) (s : Page)
    → IsOnPage events s
    → IsOnPage events (clicks events cs s)
clicks_keep events [] s on = on
clicks_keep events (c ∷ cs) s on =
    clicks_keep events cs (clicked events c s) (clicked-IsOnPage events c s on)

-- Whatever is clicked on the page of a log, the page that is shown is one of those that the chosen filters
-- leave, from the first to the last.
pub clicks-IsOnPage :
    (events : List AuditEvent) (cs : List Click) → IsOnPage events (clicks events cs initial)
unfolding initial
clicks-IsOnPage events cs =
    clicks_keep events cs initial (record { first = omega arith; last = total_pages_pos _ })
