-- ===== src/PagedKv/Tests.antt =====
-- Two sequences over four pages of two tokens each.
use mini_llm_runtime.Base.{ℕ, ◌<◌, ◌≡◌, ◌≢◌, refl, Bool, true, [], ◌∷◌, arith, All, ok}
use mini_llm_runtime.PagedKv.{
  KvConfig, Table, PagedKv, Outcome, returned, raised, undefined, multiply_sizes, page_elements,
  push_pages, construct, allocate_page, open_page, extend_page, append, share_prefix, store,
  page_at, write_loop, retain_pages, release_pages, clear, used_pages, read, resident_bytes,
}
use mini_llm_runtime.PagedKv.Invariant.{IsValid}
use mini_llm_runtime.PagedKv.History.{
  Call, appends, stores, shares, Reach, here, later, apply, reached-IsValid,
}
use mini_llm_runtime.PagedKv.Effects.{SameReads, call-IsIsolated}

abbrev small_cache : KvConfig
small_cache = record { pages = 4; page_tokens = 2; layers = 1; kv_width = 1; sequences = 2 }

abbrev same_number : ℕ → ℕ
same_number n = n

abbrev or_same : Outcome PagedKv → PagedKv → PagedKv
or_same (returned p) q = p
or_same (raised x) q = q
or_same undefined q = q

abbrev new_cache : PagedKv
new_cache = record {
  config = small_cache;
  elements_per_page = 4;
  refs = 0 ∷ 0 ∷ 0 ∷ 0 ∷ [];
  contents = [] ∷ [] ∷ [] ∷ [] ∷ [];
  tables = record { pages = []; length_of = 0 } ∷ record { pages = []; length_of = 0 } ∷ [];
  free = 0 ∷ 1 ∷ 2 ∷ 3 ∷ [];
  copy_on_writes = 0;
}

new_cache-built : construct small_cache ≡ ok new_cache
unfolding construct page_elements multiply_sizes push_pages
new_cache-built = refl

-- Sequence 0 has one token, 7 and 8, and sequence 1 shares it.
abbrev one_token : PagedKv
one_token = or_same (append 0 0 new_cache) new_cache

abbrev stored_token : PagedKv
stored_token = or_same (store same_number 0 0 0 (7 ∷ []) (8 ∷ []) one_token) one_token

abbrev shared_token : PagedKv
shared_token = or_same (share_prefix 0 1 1 stored_token) stored_token

three_calls : Reach same_number new_cache shared_token
unfolding append open_page allocate_page share_prefix store page_at write_loop retain_pages
    release_pages clear
three_calls =
    later (later (later here (appends 0 0) refl) (stores 0 0 0 (7 ∷ []) (8 ∷ [])) refl)
      (shares 0 1 1) refl

shared_token-IsValid : IsValid shared_token
shared_token-IsValid =
    (reached-IsValid same_number small_cache new_cache shared_token new_cache-built (omega arith)
      three_calls).0

reached-IsValid_example :
    IsValid shared_token
    × ((call : Call ℕ) → apply same_number call shared_token ≢ undefined)
    × ((value : Bool) (s layer position : ℕ) → read value s layer position shared_token ≢ undefined)
    × (All (λ (t : Table). t.pages ≡ []) shared_token.tables → used_pages shared_token ≡ 0)
reached-IsValid_example =
    reached-IsValid same_number small_cache new_cache shared_token new_cache-built (omega arith)
      three_calls

-- An append of sequence 1 copies the page, which sequence 0 still reads.
abbrev copied : PagedKv
copied = or_same (append 1 1 shared_token) shared_token

copied-tables :
    copied.tables
    ≡ record { pages = 0 ∷ []; length_of = 1 } ∷ record { pages = 1 ∷ []; length_of = 2 } ∷ []
unfolding append open_page extend_page allocate_page share_prefix store page_at write_loop
    retain_pages release_pages clear
copied-tables = refl

copied-read : read true 1 0 0 copied ≡ returned (8 ∷ [])
unfolding append open_page extend_page allocate_page share_prefix store page_at write_loop
    retain_pages release_pages clear read
copied-read = refl

resident_copied : resident_bytes copied.contents ≡ 16
unfolding append open_page extend_page allocate_page share_prefix store page_at write_loop
    retain_pages release_pages clear resident_bytes
resident_copied = refl

copied-append : append 1 1 shared_token ≡ returned copied
unfolding append open_page extend_page allocate_page share_prefix store page_at write_loop
    retain_pages release_pages clear
copied-append = refl

call-IsIsolated_example :
    ((other : ℕ) → 1 ≢ other → SameReads other shared_token copied)
    × ((value : Bool) (layer i : ℕ)
        → i < 1
        → read value 1 layer i copied ≡ read value 1 layer i shared_token)
call-IsIsolated_example =
    call-IsIsolated same_number (appends 1 1) shared_token copied shared_token-IsValid copied-append
