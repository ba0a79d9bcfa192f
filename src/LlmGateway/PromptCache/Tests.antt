-- ===== src/LlmGateway/PromptCache/Tests.antt =====
-- The cache at concrete texts.
use skillfyme_hands_on.Base.{ℕ, ◌+◌, ◌≡◌, refl, some, [], ◌∷◌, length, arith}
use skillfyme_hands_on.LlmGateway.PromptCache.{
  Text, CachedValue, exact, CacheConfig, shingle, get, put,
}
use skillfyme_hands_on.LlmGateway.PromptCache.Laws.{get-put}

-- A stand-in for the digest: the sum of the characters.
sum : Text → ℕ
sum [] = 0
sum (c ∷ cs) = c + sum cs

abbrev small : CacheConfig
small = record { ttl_ms = 100; max_entries = 2 }

abbrev answer : CachedValue
answer = record { text = 104 ∷ 105 ∷ []; model = 1; input_tokens = 3; output_tokens = 2 }

-- "Why is a" has three words and two pairs.
three_words : length (shingle (87 ∷ 104 ∷ 121 ∷ 32 ∷ 105 ∷ 115 ∷ 32 ∷ 97 ∷ [])) ≡ 5
unfolding shingle
three_words = refl

get-put_example :
    (get sum 50
      (1 ∷ [])
      (2 ∷ [])
      (3 ∷ [])
      (put sum small 10 (1 ∷ []) (2 ∷ []) (3 ∷ []) answer [])).0
    ≡ some (record { value = answer; kind = exact })
get-put_example = get-put sum small 1 10 50 (1 ∷ []) (2 ∷ []) (3 ∷ []) answer [] refl (omega arith)

abbrev prompt_version : Text
prompt_version = 1 ∷ []

abbrev system_block : Text
system_block = 2 ∷ 4 ∷ []

abbrev user_turn : Text
user_turn = 3 ∷ 0 ∷ []
