-- ===== src/Cuda/PageTable/Tests.antt =====
-- A table of two sequences over three pages of 16 tokens.
use mini_llm_runtime.Base.{◌≡◌, refl, true, false, none, some, List, ℕ, [], ◌∷◌, arith, ok}
use mini_llm_runtime.Cuda.PageTable.{
  ready, prepared, PageTable, good_row, needed_pages, assign_row, assign_rows, prepare, release_row,
  released_pages, clear,
}
use mini_llm_runtime.Config.{checked_kv_capacity}
use mini_llm_runtime.Cuda.PageTable.{PageTableLimits, construct, iota, commit, begin_execution}
use mini_llm_runtime.Cuda.PageTable.Lifecycle.{here, later, commits, reached-IsSound}
use mini_llm_runtime.Cuda.PageTable.Conservation.{IsSound, IsPlanned, prepare-IsPlanned}

abbrev one_page : PageTable
one_page = record {
  limits = record { sequences = 2; max_model_len = 32; page_tokens = 16; physical_pages = 3 };
  blocks = 2;
  active = (some 2 ∷ none ∷ []) ∷ (none ∷ none ∷ []) ∷ [];
  pending = (none ∷ none ∷ []) ∷ (none ∷ none ∷ []) ∷ [];
  free_ids = 1 ∷ 0 ∷ [];
  journal = [];
  phase = ready;
  dirty = false;
}

one_page-IsSound : IsSound one_page
one_page-IsSound = record {
  page_tokens = omega arith;
  wide = refl;
  sized = refl;
  shaped = (refl, (refl, tt));
  conserved = λ a. ground arith;
}

-- Both sequences need a page more.
abbrev two_planned : PageTable
two_planned = record one_page {
  pending = (some 2 ∷ some 1 ∷ []) ∷ (some 0 ∷ none ∷ []) ∷ [];
  journal = 1 ∷ 0 ∷ [];
  phase = prepared;
}

abbrev old_lengths : List ℕ
old_lengths = 10 ∷ 0 ∷ []

abbrev new_lengths : List ℕ
new_lengths = 20 ∷ 3 ∷ []

prepare-two : prepare old_lengths new_lengths one_page ≡ ok two_planned
unfolding prepare needed_pages good_row assign_rows assign_row
prepare-two = refl

clear-one :
    clear 0 one_page
    ≡ ok (record one_page {
      active = (none ∷ none ∷ []) ∷ (none ∷ none ∷ []) ∷ [];
      free_ids = 2 ∷ 1 ∷ 0 ∷ [];
      dirty = true;
    })
unfolding clear released_pages release_row
clear-one = refl

prepare-IsPlanned_example : IsPlanned old_lengths new_lengths one_page two_planned
prepare-IsPlanned_example =
    prepare-IsPlanned old_lengths new_lengths one_page two_planned one_page-IsSound prepare-two

abbrev three_pages : PageTableLimits
three_pages = record { sequences = 2; max_model_len = 32; page_tokens = 16; physical_pages = 3 }

abbrev new_table : PageTable
new_table = record {
  limits = three_pages;
  blocks = 2;
  active = (none ∷ none ∷ []) ∷ (none ∷ none ∷ []) ∷ [];
  pending = (none ∷ none ∷ []) ∷ (none ∷ none ∷ []) ∷ [];
  free_ids = 2 ∷ 1 ∷ 0 ∷ [];
  journal = [];
  phase = ready;
  dirty = true;
}

new_table-built : construct three_pages ≡ ok new_table
unfolding construct checked_kv_capacity iota
new_table-built = refl

abbrev first_planned : PageTable
first_planned = record new_table {
  pending = (some 2 ∷ none ∷ []) ∷ (none ∷ none ∷ []) ∷ [];
  journal = 2 ∷ [];
  phase = prepared;
}

abbrev no_lengths : List ℕ
no_lengths = 0 ∷ 0 ∷ []

prepare-first : prepare no_lengths old_lengths new_table ≡ ok first_planned
unfolding prepare needed_pages good_row assign_rows assign_row
prepare-first = refl

reached-IsSound_example :
    IsSound (commit (begin_execution first_planned))
    × ((commit (begin_execution first_planned)).phase ≡ ready)
reached-IsSound_example =
    reached-IsSound three_pages new_table (commit (begin_execution first_planned)) new_table-built
      (later here (commits no_lengths old_lengths prepare-first))
