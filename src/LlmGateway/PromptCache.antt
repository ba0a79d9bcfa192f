-- ===== src/LlmGateway/PromptCache.antt =====
-- practice-core/src/modules/llm-gateway/prompt-cache.ts. A text is a list of character codes, of which
-- the letters are ASCII. SHA-256 is the parameter `sha256`. A `Map` is the list of its entries, the
-- oldest first. `Date.now()` is the argument `now`, which does not move within a call.
pub mod Laws
mod Tests
use skillfyme_hands_on.Base.{
  ℕ, ◌+◌, ◌-◌, ◌*◌, Bool, true, false, ◌&&◌, ◌||◌, not, Option, none, some, List, [], ◌∷◌, ◌++◌,
  map, ◌==◌, ltb, leb, if◌then◌else◌, length, any, find, filter,
}
pub use skillfyme_hands_on.Base.{Text, same_text}

abbrev space : ℕ
space = 32

abbrev pub default_ttl_ms : ℕ
default_ttl_ms = 86_400_000

abbrev pub default_max_entries : ℕ
default_max_entries = 2_000

-- What a cached answer says.
pub record CachedValue : Type 0 where
  pub text : Text
  pub model : ℕ
  pub input_tokens : ℕ
  pub output_tokens : ℕ

pub data HitKind : Type 0 where
  exact semantic : HitKind

-- `CacheHit`
pub record CacheHit : Type 0 where
  pub value : CachedValue
  pub kind : HitKind

pub record Entry : Type 0 where
  pub key : ℕ
  pub prompt_version : Text
  pub system_key : ℕ
  pub shingles : List Text
  pub value : CachedValue
  pub expires_at : ℕ

-- The lower case of a character, and a space for what is no letter, digit or white space.
abbrev normal : ℕ → ℕ
normal c =
    if leb 65 c && leb c 90
    then c + 32
    else if (leb 97 c && leb c 122) || (leb 48 c && leb c 57)
    then c
    else space

abbrev push_word : Text → List Text → List Text
push_word [] ws = ws
push_word (c ∷ cs) ws = (c ∷ cs) ∷ ws

-- The words of a normal text: its first one, as far as it reaches, and those after it.
abbrev split : Text → Text × List Text
split [] = ([], [])
split (c ∷ cs) = let (w, ws) = split cs in if c == space then ([], push_word w ws) else (c ∷ w, ws)

abbrev pub words : Text → List Text
words t = let (w, ws) = split (map normal t) in push_word w ws

abbrev pub has_text : Text → List Text → Bool
has_text t ts = any (same_text t) ts

-- `Set.add`; the order of a set's elements does not matter here.
abbrev add_text : Text → List Text → List Text
add_text t ts = if has_text t ts then ts else t ∷ ts

abbrev shingles_of : List Text → List Text
shingles_of [] = []
shingles_of (w ∷ []) = w ∷ []
shingles_of (w ∷ v ∷ ws) = add_text w (add_text (w ++ (space ∷ v)) (shingles_of (v ∷ ws)))

unfoldable pub shingle : Text → List Text
shingle t = shingles_of (words t)

abbrev pub common : List Text → List Text → ℕ
common a b = length (filter (λ x. has_text x b) a)

-- `jaccard`, as a numerator and a denominator
unfoldable pub jaccard : List Text → List Text → ℕ × ℕ
jaccard [] b = (0, 1)
jaccard (x ∷ a) [] = (0, 1)
jaccard (x ∷ a) (y ∷ b) =
    (common (x ∷ a) (y ∷ b), length (x ∷ a) + length (y ∷ b) - common (x ∷ a) (y ∷ b))

-- `score >= SEMANTIC_THRESHOLD`, which is 0.6
abbrev pub is_similar : ℕ × ℕ → Bool
is_similar (n, d) = leb (6 * d) (10 * n)

abbrev pub above : ℕ × ℕ → ℕ × ℕ → Bool
above (n, d) (m, e) = ltb (m * d) (n * e)

-- The best entry so far, with its score.
abbrev pub better : List Text → Entry → Option (Entry × (ℕ × ℕ)) → Option (Entry × (ℕ × ℕ))
unfolding jaccard
better q e best =
    if is_similar (jaccard q e.shingles) && beats best then some (e, jaccard q e.shingles) else best
  where
    beats : Option (Entry × (ℕ × ℕ)) → Bool
    beats none = true
    beats (some (f, s)) = above (jaccard q e.shingles) s

unfoldable pub evict_expired : ℕ → List Entry → List Entry
evict_expired now es = filter (λ e. ltb now e.expires_at) es

-- `Map.delete`
unfoldable pub delete : ℕ → List Entry → List Entry
delete key es = filter (λ e. not (e.key == key)) es

-- The loop of `put`: the oldest entries go while there are too many.
unfoldable pub drop_oldest : ℕ → List Entry → List Entry
drop_oldest most [] = []
drop_oldest most (e ∷ es) =
    let rest = drop_oldest most es in if ltb most (length (e ∷ es)) then rest else e ∷ es

-- The times to live and the bound of a cache are arguments of its constructor.
pub record CacheConfig : Type 0 where
  pub ttl_ms : ℕ
  pub max_entries : ℕ

-- What is hashed for an exact key: the three texts with a character 0 between them.
abbrev pub key_text : Text → Text → Text → Text
key_text version system user = version ++ (0 ∷ system ++ (0 ∷ user))

module _ (sha256 : Text → ℕ) where
  -- `exactKey`
  abbrev pub exact_key : Text → Text → Text → ℕ
  exact_key version system user = sha256 (key_text version system user)

  abbrev pub in_bucket : Text → Text → Entry → Bool
  in_bucket version system e = same_text e.prompt_version version && (e.system_key == sha256 system)

  unfoldable pub semantic_best :
      Text → Text → List Text → List Entry → Option (Entry × (ℕ × ℕ)) → Option (Entry × (ℕ × ℕ))
  semantic_best version system q [] best = best
  semantic_best version system q (e ∷ es) best =
      semantic_best version system q es
        (if in_bucket version system e then better q e best else best)

  abbrev pub semantic_hit : Option (Entry × (ℕ × ℕ)) → Option CacheHit
  semantic_hit none = none
  semantic_hit (some (e, s)) = some (record { value = e.value; kind = semantic })

  -- `get`: the hit, and the cache that it leaves.
  unfoldable pub get : ℕ → Text → Text → Text → List Entry → Option CacheHit × List Entry
  unfolding semantic_best evict_expired delete shingle
  get now version system user es =
      let live = evict_expired now es in
      let key = exact_key version system user in
      elim (find (λ e. e.key == key) live) [
        | some e ↦ (some (record { value = e.value; kind = exact }), delete key live ++ (e ∷ []))
        | none ↦ (semantic_hit (semantic_best version system (shingle user) live none), live)
      ]

  abbrev pub new_entry : CacheConfig → ℕ → Text → Text → Text → CachedValue → Entry
  unfolding shingle
  new_entry cfg now version system user v = record {
    key = exact_key version system user;
    prompt_version = version;
    system_key = sha256 system;
    shingles = shingle user;
    value = v;
    expires_at = now + cfg.ttl_ms;
  }

  unfoldable pub put : CacheConfig → ℕ → Text → Text → Text → CachedValue → List Entry → List Entry
  unfolding drop_oldest delete
  put cfg now version system user v es =
      drop_oldest cfg.max_entries (
        delete (exact_key version system user) es ++ (new_entry cfg now version system user v ∷ []))
