-- ===== src/Engine/Tests/Rooms.antt =====
-- An engine in which two requests hold all the blocks, and the prompt of the first is cached. A third
-- request that continues this prompt has to evict it.
use mini_llm_runtime.Base.{
  ℕ, ◌≡◌, refl, arith, get_elem?, stable_sort, ◌+ℤ◌, div_ℤ, Option, some, [], ◌∷◌, inc64,
}
use mini_llm_runtime.BlockPool.{
  allocate, take_blocks, retain, validate_table, validate_loop, next_epoch, saturated, retain_loop,
}
use mini_llm_runtime.PrefixIndex.{
  PrefixEntry, PrefixMatch, size, find_root, match, insert, find_entry, put_entry, put_root,
  insert_path, set_insert,
}
use mini_llm_runtime.Scheduler.{effective_priority}
use mini_llm_runtime.Engine.{Request, Engine}
use mini_llm_runtime.Engine.Action.{
  returned, pure, gets, or_stuck, lift, on_pool, on_prefixes, modify, observe, raise, stuck, ◌>>=◌,
}
use mini_llm_runtime.Engine.Finish.{require_reusable}
use mini_llm_runtime.Engine.Admit.{
  admitted_before, pop_sequence, make_room, share_blocks, publish_item, admit_with, admit,
  admit_loop, admit_waiting, cache_prompt, store_prompt, copy_tokens, insert_entry, make_cache_room,
  pop_cache_sequence,
}
use mini_llm_runtime.Engine.Construct.{push_sequences}
use mini_llm_runtime.Engine.Logic.{core, Inv}
use mini_llm_runtime.Engine.Admissions.{IsShort}
use mini_llm_runtime.Engine.Guarantees.{
  IsKept, admit_waiting-IsKept, cache_prompt-IsKept, make_room-ends,
}
use mini_llm_runtime.Engine.Tests.{
  counting_runner, steady_world, some_request, admitted_item, new_engine, new-Inv,
}

abbrev second_request : Request
second_request = record some_request {
  id = "cmpl-2";
  order = 2;
  prompt = 5 ∷ some_request.prompt;
  max_tokens = 13;
}

abbrev asked_engine : Engine ℕ
asked_engine = record new_engine {
  waiting = some_request ∷ second_request ∷ [];
  registry = ("cmpl-1", 1) ∷ ("cmpl-2", 2) ∷ [];
}

abbrev full_engine : Engine ℕ
full_engine = (admit_waiting steady_world counting_runner asked_engine).1

abbrev cached_engine : Engine ℕ
cached_engine = (cache_prompt steady_world counting_runner admitted_item full_engine).1

full-Inv : Inv (core full_engine)
full-Inv = (admit_waiting-IsKept steady_world counting_runner asked_engine new-Inv).1

full-active : get_elem? full_engine.active 0 ≡ some admitted_item
unfolding admit_waiting admit_loop admit admit_with publish_item share_blocks make_room pop_sequence
    admitted_before effective_priority stable_sort pure gets or_stuck lift on_pool on_prefixes
    modify observe raise stuck ◌>>=◌ require_reusable match find_root allocate take_blocks
    push_sequences ◌+ℤ◌ div_ℤ cache_prompt store_prompt copy_tokens insert_entry make_cache_room
    pop_cache_sequence retain validate_table validate_loop next_epoch inc64 saturated retain_loop
    insert find_entry put_entry put_root insert_path set_insert
full-active = refl

cached-Inv : Inv (core cached_engine)
cached-Inv =
    (cache_prompt-IsKept steady_world counting_runner full_engine full-Inv 0 admitted_item
      full-active refl).0.1

-- A request whose prompt goes on from the cached one.
abbrev third_request : Request
third_request = record some_request {
  id = "cmpl-3";
  order = 3;
  prompt = 1 ∷ 2 ∷ 3 ∷ 4 ∷ 5 ∷ 6 ∷ 7 ∷ 0 ∷ 1 ∷ 2 ∷ 3 ∷ 4 ∷ 5 ∷ 6 ∷ 7 ∷ 0 ∷ 1 ∷ [];
  max_tokens = 13;
}

abbrev cached_entry : PrefixEntry
cached_entry = record {
  sequence = 2;
  cache_namespace = "default";
  tokens = some_request.prompt;
  blocks = 0 ∷ [];
  last_used = 1;
}

cached-entry : find_entry 2 cached_engine.prefixes.entries ≡ some cached_entry
unfolding admit_waiting admit_loop admit admit_with publish_item share_blocks make_room pop_sequence
    admitted_before effective_priority stable_sort pure gets or_stuck lift on_pool on_prefixes
    modify observe raise stuck ◌>>=◌ require_reusable match find_root allocate take_blocks
    push_sequences ◌+ℤ◌ div_ℤ cache_prompt store_prompt copy_tokens insert_entry make_cache_room
    pop_cache_sequence retain validate_table validate_loop next_epoch inc64 saturated retain_loop
    insert find_entry put_entry put_root insert_path set_insert
cached-entry = refl

cached-block_size : cached_engine.prefixes.block_size ≡ 16
unfolding admit_waiting admit_loop admit admit_with publish_item share_blocks make_room pop_sequence
    admitted_before effective_priority stable_sort pure gets or_stuck lift on_pool on_prefixes
    modify observe raise stuck ◌>>=◌ require_reusable match find_root allocate take_blocks
    push_sequences ◌+ℤ◌ div_ℤ cache_prompt store_prompt copy_tokens insert_entry make_cache_room
    pop_cache_sequence retain validate_table validate_loop next_epoch inc64 saturated retain_loop
    insert find_entry put_entry put_root insert_path set_insert
cached-block_size = refl

-- No block is free, so the loop starts with an eviction.
cached-IsShort :
    IsShort third_request (some (record { sequence = 2; tokens = 16 })) (core cached_engine)
unfolding admit_waiting admit_loop admit admit_with publish_item share_blocks make_room pop_sequence
    admitted_before effective_priority stable_sort pure gets or_stuck lift on_pool on_prefixes
    modify observe raise stuck ◌>>=◌ require_reusable match find_root allocate take_blocks
    push_sequences ◌+ℤ◌ div_ℤ cache_prompt store_prompt copy_tokens insert_entry make_cache_room
    pop_cache_sequence retain validate_table validate_loop next_epoch inc64 saturated retain_loop
    insert find_entry put_entry put_root insert_path set_insert
cached-IsShort = refl

make_room-ends_example :
    let r =
      make_room steady_world counting_runner
        (size cached_engine.prefixes)
        third_request
        (some (record { sequence = 2; tokens = 16 }))
        cached_engine in
    IsKept r
    × ((out : Option PrefixMatch) → r.0 ≡ returned out → ¬ (IsShort third_request out (core r.1)))
make_room-ends_example =
    make_room-ends steady_world counting_runner cached_engine cached-Inv third_request
      (some (record { sequence = 2; tokens = 16 }))
      (cached_entry, cached-entry, omega arith, rw cached-block_size refl, omega arith)
