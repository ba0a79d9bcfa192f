-- ===== src/LlmGateway/PromptCache/Laws.antt =====
-- The cache's bound, what it answers, and what it forgets.
use skillfyme_hands_on.Base.{
  ℕ, suc, ◌+◌, ◌≡◌, ◌≤◌, ◌<◌, refl, true, false, some, List, [], ◌∷◌, ◌++◌, ◌==◌, ==_refl, ltb,
  length, find, All, arith, Bool-cases, inl, inr,
}
use skillfyme_hands_on.LlmGateway.PromptCache.{
  Text, CachedValue, exact, Entry, CacheConfig, evict_expired, delete, drop_oldest, exact_key,
  key_text, get, new_entry, put,
}

length-drop_oldest : (n : ℕ) (es : List Entry) → length (drop_oldest n es) ≤ n
unfolding drop_oldest
length-drop_oldest n [] = omega arith
length-drop_oldest n (e ∷ es) = ground (arith, length-drop_oldest n es)

-- No entry has the key.
abbrev NoKey : ℕ → List Entry → Type 0
NoKey key es = All (λ e. (e.key == key) ≡ false) es

delete-NoKey : (key : ℕ) (es : List Entry) → NoKey key (delete key es)
unfolding delete
delete-NoKey key [] = tt
delete-NoKey key (e ∷ es) = elim (Bool-cases (e.key == key)) [
  | inl b ↦ rw b (delete-NoKey key es)
  | inr b ↦ rw b (b, delete-NoKey key es)
]

module _ (now : ℕ) (e : Entry) (live : ltb now e.expires_at ≡ true) where
  find-last :
      (es : List Entry)
      → NoKey e.key es
      → find (λ x. x.key == e.key) (evict_expired now (es ++ (e ∷ []))) ≡ some e
  unfolding evict_expired
  find-last [] h = rw (live, ==_refl e.key) refl
  find-last (x ∷ xs) (h, hs) = ground (arith, find-last xs hs)

  find-drop_oldest :
      (n : ℕ) (es : List Entry)
      → NoKey e.key es
      → find (λ x. x.key == e.key) (evict_expired now (drop_oldest (suc n) (es ++ (e ∷ []))))
        ≡ some e
  unfolding evict_expired drop_oldest
  find-drop_oldest n [] h = ground arith
  find-drop_oldest n (x ∷ xs) (h, hs) =
      elim (Bool-cases (ltb (suc n) (length (x ∷ xs ++ (e ∷ []))))) [
        | inl b ↦ rw b (find-drop_oldest n xs hs)
        | inr b ↦ rw b (find-last (x ∷ xs) (h, hs))
      ]

-- A text without the character 0.
abbrev pub NoZero : Text → Type 0
NoZero t = All (λ c. (c == 0) ≡ false) t

separated :
    (xs ys us vs : Text)
    → NoZero xs
    → NoZero ys
    → xs ++ (0 ∷ us) ≡ ys ++ (0 ∷ vs)
    → (xs ≡ ys) × (us ≡ vs)
separated [] [] us vs h k e = ground arith
separated [] (y ∷ ys) us vs h (k, ks) e = absurd (ground arith)
separated (x ∷ xs) [] us vs (h, hs) k e = absurd (ground arith)
separated (x ∷ xs) (y ∷ ys) us vs (h, hs) (k, ks) e =
    let (p, q) = separated xs ys us vs hs ks (ground arith) in (ground arith, q)

-- Two prompts whose versions and system blocks hold no character 0 are hashed from the same text only
-- if they have the same version, the same system block and the same user turn.
pub key_text_injective :
    (version version' system system' user user' : Text)
    → NoZero version
    → NoZero version'
    → NoZero system
    → NoZero system'
    → key_text version system user ≡ key_text version' system' user'
    → (version ≡ version') × (system ≡ system') × (user ≡ user')
key_text_injective version version' system system' user user' a b c d e =
    let (p, q) = separated version version' _ _ a b e in
    let (r, s) = separated system system' _ _ c d q in (p, r, s)

module _ (sha256 : Text → ℕ) where
  -- A cache holds at most as many entries as its bound says, whatever is put into it.
  pub length-put :
      (cfg : CacheConfig) (now : ℕ) (version system user : Text) (v : CachedValue) (es : List Entry)
      → length (put sha256 cfg now version system user v es) ≤ cfg.max_entries
  unfolding put new_entry
  length-put cfg now version system user v es = length-drop_oldest cfg.max_entries _

  get_found :
      (now : ℕ) (version system user : Text) (es : List Entry) (e : Entry)
      → find (λ x. x.key == exact_key sha256 version system user) (evict_expired now es) ≡ some e
      → (get sha256 now version system user es).0 ≡ some (record { value = e.value; kind = exact })
  unfolding get
  get_found now version system user es e h = rw (h, get) refl

  -- A lookup in the cache that a put has left, which may hold one entry at least, is an exact hit for
  -- the prompt of the put, and gives what was put, before the time to live is over. Nothing else has
  -- been put or looked up in between.
  pub get-put :
      (cfg : CacheConfig) (n now later : ℕ) (version system user : Text) (v : CachedValue)
      (es : List Entry)
      → cfg.max_entries ≡ suc n
      → later < now + cfg.ttl_ms
      → (get sha256 later version system user (put sha256 cfg now version system user v es)).0
        ≡ some (record { value = v; kind = exact })
  unfolding put new_entry
  get-put cfg n now later version system user v es m h =
      let e = new_entry sha256 cfg now version system user v in
      let l : ltb later (now + cfg.ttl_ms) ≡ true = ground arith in
      simp (m) (
        get_found later version system user _ e
          (find-drop_oldest later e l n (delete e.key es) (delete-NoKey e.key es)))
