-- ===== src/ServerApi/Response/Classify.antt =====
-- How responses are told apart.
use libncclient.Common.{
  ℕ, zero, suc, ◌≡◌, ◌≢◌, refl, ◌∙◌, Bool, true, false, ◌&&◌, List, [], ◌∷◌, ◌++◌, Option, none,
  some, Bytes, length, get_elem?, arith, length-append, drop-append, to_int-of_lt,
}
use libncclient.Memory.{Heap, done}
use libncclient.Interop.{SizedView, make_view}
use libncclient.Interop.Copies.{Fits, make_copy_lem, make_view-Shows, copy_in, with_copy}
use libncclient.Util.Prefix.{starts_with, starts_with-append, starts_with-mismatch, mismatch}
use libncclient.ServerApi.Response.{
  ServerCommandType, ServerCommandInfo, table, invalid_response, search_table,
  sa_server_response_to_info,
}

abbrev Entry : Type 0
Entry = ServerCommandType × Bytes

-- No text that begins with the prefix of a later entry begins with this one.
abbrev all_mismatch : Bytes → List Entry → Bool
all_mismatch q [] = true
all_mismatch q ((t, p) ∷ dat) = mismatch p q && all_mismatch q dat

abbrev unshadowed : List Entry → Bool
unshadowed [] = true
unshadowed ((t, q) ∷ dat) = all_mismatch q dat && unshadowed dat

table-unshadowed : unshadowed table ≡ true
table-unshadowed = refl

all_mismatch-get :
    (q : Bytes) (dat : List Entry) (i : ℕ) (t : ServerCommandType) (p : Bytes)
    → all_mismatch q dat ≡ true
    → get_elem? dat i ≡ some (t, p)
    → mismatch p q ≡ true
all_mismatch-get q [] i t p h e = cc
all_mismatch-get q ((u, r) ∷ dat) zero t p h e = ground arith
all_mismatch-get q ((u, r) ∷ dat) (suc i) t p h e = all_mismatch-get q dat i t p (ground arith) e

-- The info of a response of this type with this text.
abbrev pub info_in : ServerCommandType → Bytes → Heap → ServerCommandInfo
info_in t s h = record { type = t; text = copy_in s h }

search_table_at :
    (t : ServerCommandType) (p s : Bytes) (dat : List Entry) (h : Heap)
    → Fits s
    → search_table ((t, p) ∷ dat) (p ++ s) h ≡ done (info_in t s h) (with_copy s h)
unfolding search_table
search_table_at t p s dat h fits =
    rw (starts_with-append p s, drop-append p s) (ground (arith, make_copy_lem s h fits))

search_table_hit :
    (v : ServerCommandType) (q : Bytes) (t : ServerCommandType) (p s : Bytes) (dat : List Entry)
    (h : Heap)
    → Fits s
    → ◌≡◌ {A = Option Entry} (some (v, q)) (some (t, p))
    → search_table ((v, q) ∷ dat) (p ++ s) h ≡ done (info_in t s h) (with_copy s h)
search_table_hit v q t p s dat h fits e = cc (search_table_at t p s dat h fits)

search_table_miss :
    (v : ServerCommandType) (q text : Bytes) (dat : List Entry) (h : Heap)
    → starts_with text q ≡ false
    → search_table ((v, q) ∷ dat) text h ≡ search_table dat text h
unfolding search_table
search_table_miss v q text dat h e = rw e

search_table_get :
    (dat : List Entry) (i : ℕ) (t : ServerCommandType) (p s : Bytes) (h : Heap)
    → unshadowed dat ≡ true
    → Fits s
    → get_elem? dat i ≡ some (t, p)
    → search_table dat (p ++ s) h ≡ done (info_in t s h) (with_copy s h)
search_table_get [] i t p s h u fits e = cc
search_table_get ((v, q) ∷ dat) zero t p s h u fits e = search_table_hit v q t p s dat h fits e
search_table_get ((v, q) ∷ dat) (suc i) t p s h u fits e =
    search_table_miss v q (p ++ s) dat h
      (starts_with-mismatch p q s (all_mismatch-get q dat i t p (ground arith) e))
    ∙ search_table_get dat i t p s h (ground arith) fits e

-- A view of a text with a char gets past the guards.
response-search :
    (c : ℕ) (s : Bytes) (h : Heap)
    → Fits (c ∷ s)
    → sa_server_response_to_info (make_view (c ∷ s)) h ≡ search_table table (c ∷ s) h
unfolding sa_server_response_to_info make_view
response-search c s h fits =
    ground (arith, to_int-of_lt (length (c ∷ s)) (omega arith), make_view-Shows (c ∷ s) fits h)

all_full : List Entry → Bool
all_full [] = true
all_full ((t, []) ∷ dat) = false
all_full ((t, c ∷ p) ∷ dat) = all_full dat

get-full :
    (dat : List Entry) (i : ℕ) (t : ServerCommandType) (p s : Bytes)
    → all_full dat ≡ true
    → get_elem? dat i ≡ some (t, p)
    → p ++ s ≢ []
unfolding all_full
get-full [] i t p s u e = cc
get-full ((v, []) ∷ dat) i t p s u e = cc
get-full ((v, c ∷ q) ∷ dat) zero t [] s u e = cc
get-full ((v, c ∷ q) ∷ dat) zero t (d ∷ p) s u e = λ f. cc
get-full ((v, c ∷ q) ∷ dat) (suc i) t p s u e = get-full dat i t p s u e

table-full : all_full table ≡ true
unfolding all_full
table-full = refl

response-table :
    (text : Bytes) (h : Heap)
    → text ≢ []
    → Fits text
    → sa_server_response_to_info (make_view text) h ≡ search_table table text h
response-table [] h full fits = absurd (full refl)
response-table (c ∷ s) h full fits = response-search c s h fits

-- No prefix of the table hides another: a response that is an entry's prefix with any text behind
-- it gets the entry's type and a copy of that text. The whole response fits (`Fits`).
pub response-entry :
    (i : ℕ) (t : ServerCommandType) (p s : Bytes) (h : Heap)
    → get_elem? table i ≡ some (t, p)
    → Fits (p ++ s)
    → sa_server_response_to_info (make_view (p ++ s)) h ≡ done (info_in t s h) (with_copy s h)
response-entry i t p s h e fits =
    response-table (p ++ s) h (get-full table i t p s table-full e) fits
    ∙ search_table_get table i t p s h table-unshadowed (omega (arith, length-append p s)) e

-- The text begins with no prefix of the list.
abbrev pub StartsNone : Bytes → List Entry → Type 0
StartsNone text [] = Unit {0}
StartsNone text ((t, p) ∷ dat) = (starts_with text p ≡ false) × StartsNone text dat

search_table_none :
    (text : Bytes) (dat : List Entry) (h : Heap)
    → StartsNone text dat
    → search_table dat text h ≡ done invalid_response h
unfolding search_table
search_table_none text [] h n = refl
search_table_none text ((t, p) ∷ dat) h n = rw n.0 (search_table_none text dat h n.1)

response-unknown :
    (text : Bytes) (h : Heap)
    → Fits text
    → StartsNone text table
    → sa_server_response_to_info (make_view text) h ≡ done invalid_response h
response-unknown [] h fits n =
    unfold sa_server_response_to_info make_view in ground (arith, to_int-of_lt 0 (omega arith))
response-unknown (c ∷ s) h fits n = response-search c s h fits ∙ search_table_none (c ∷ s) table h n

response-null :
    (v : SizedView) (h : Heap)
    → v.str ≡ none
    → sa_server_response_to_info v h ≡ done invalid_response h
unfolding sa_server_response_to_info
response-null v h e = ground arith

-- A text that begins with no prefix of the table is an invalid response, and nothing is allocated
-- for it; so is a null view. The text fits (`Fits`).
pub response_unknown :
    (text : Bytes) (v : SizedView) (h : Heap)
    → Fits text
    → StartsNone text table
    → v.str ≡ none
    → (sa_server_response_to_info (make_view text) h ≡ done invalid_response h)
      × (sa_server_response_to_info v h ≡ done invalid_response h)
response_unknown text v h fits n e = (response-unknown text h fits n, response-null v h e)
