-- ===== src/Engine/Tests/Clients.antt =====
-- Submissions to an engine that has no requests; numbers are written in unary.
use Prim.Native.String.{String, len, ◌++◌ as str_append}
use text.Mathlib.TextPositions.{len-append}
use mini_llm_runtime.Base.{ℕ, zero, suc, ◌+◌, ◌∙◌, ap, ◌≡◌, refl, pos, false, [], ◌∷◌, arith}
use mini_llm_runtime.Engine.Clients.{token_prompt, RequestInput, order_id, submit}
use mini_llm_runtime.Engine.Submission.{IsSubmitted, submit-IsSubmitted}
use mini_llm_runtime.Engine.Tests.{counting_runner, steady_world, new_engine}

abbrev unary : ℕ → String
unary zero = ""
unary (suc n) = str_append "1" (unary n)

len-unary : (n : ℕ) → len (unary n) ≡ n
len-unary zero = refl
len-unary (suc n) = len-append "1" (unary n) ∙ omega (arith, len-unary n)

len-order_id : (n : ℕ) → len (order_id unary n) ≡ 5 + n
len-order_id n = len-append "cmpl-" (unary n) ∙ omega (arith, len-unary n)

unary-injective : (i j : ℕ) → order_id unary i ≡ order_id unary j → i ≡ j
unary-injective i j h = omega (arith, ap len h, len-order_id i, len-order_id j)

abbrev unnamed_input : RequestInput
unnamed_input = record {
  id = "";
  prompt = token_prompt (pos 3 ∷ pos 5 ∷ []);
  max_tokens = 4;
  priority = pos 1;
  timeout_ms = pos 1000;
  ignore_eos = false;
  cache_namespace = "default";
}

submit-IsSubmitted_example :
    IsSubmitted 8 new_engine (submit unary steady_world counting_runner unnamed_input new_engine)
submit-IsSubmitted_example =
    submit-IsSubmitted unary unary-injective steady_world counting_runner unnamed_input new_engine
