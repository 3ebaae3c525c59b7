-- ===== src/Monitoring/Tokens/Tests.antt =====
-- Truncation on concrete texts, with no tiktoken.
use super_opencode.Base.{◌<◌, ◌≡◌, ◌++◌, ◌*◌, ◌-◌, take, none, replicate, arith, length, Text}
use super_opencode.Monitoring.Tokens.{
  Encoder, estimate_tokens, truncate_prompt, marker, available_of,
}
use super_opencode.Monitoring.Tokens.Truncate.{IsOver, truncate_prompt_grows}

abbrev no_encoder : Encoder
no_encoder = none

abbrev long_text : Text
long_text = replicate 200 b'x'

long_text-IsOver : IsOver no_encoder long_text 20
unfolding estimate_tokens
long_text-IsOver = (omega arith, omega arith)

long_text-IsOver_four : IsOver no_encoder long_text 4
unfolding estimate_tokens
long_text-IsOver_four = (omega arith, omega arith)

truncate_prompt_grows_example :
    (truncate_prompt no_encoder long_text 4 30
      ≡ take (available_of 4 * 4) long_text
        ++ (marker (estimate_tokens no_encoder long_text - available_of 4) 30 ++ long_text))
    × (length long_text < length (truncate_prompt no_encoder long_text 4 30))
truncate_prompt_grows_example =
    truncate_prompt_grows no_encoder long_text 4 30 (omega arith) long_text-IsOver_four
      (omega arith)
