-- ===== src/Digest/Tiger/Digesting.antt =====
-- src/crypto/digest/tiger.cpp: what `digest` returns, and what it leaves behind.
use samurai.Prelude.{
  ℕ, ◌+◌, ◌*◌, ◌^◌, some, ◌≤◌, ◌<◌, ◌≡◌, refl, sym, ap, ◌∙◌, true, false, ◌++◌, foldl, arith,
  if_true, if_false, ◌==◌, length, length-replicate, replicate, Bytes, wrap,
}
use samurai.Digest.Hash.{Hash, update, finalize, set_finalized_value}
use samurai.Digest.Hash.Stream.{IsOpen, update-kept}
use samurai.Digest.Hash.Padding.{blocks, last_blocks, padding}
use samurai.Digest.Hash.Reference.{finalize-update}
use samurai.Digest.Tiger.{
  Result, tiger_config, tiger_hash_size, hash, value_bytes, reset, tiger, tiger_update,
  internal_finalize, digest, initial,
}

pub length-value_bytes : (r : Result) → length (value_bytes r) ≡ tiger_hash_size
unfolding value_bytes
length-value_bytes r = refl

module _ (beyond : ℕ → ℕ) (passes block_size : ℕ) where
  -- What `tiger` and `reset` leave.
  pub record IsFresh (h : Hash Result) : Type 0 where
    pub unfilled : IsOpen (tiger_config block_size) (hash beyond passes) h
    pub index : h.current_block_index ≡ 0
    pub size : h.file_size ≡ 0
    pub unfinished : h.finalized ≡ false
    pub value : length h.finalized_value ≡ tiger_hash_size
    pub state : h.state ≡ initial

  pub tiger-IsFresh : 0 < block_size → IsFresh (tiger beyond passes block_size)
  unfolding tiger
  tiger-IsFresh lt = record {
    unfilled = record {
      room = lt;
      block = length-replicate (length (replicate block_size 0)) 0 ∙ length-replicate block_size 0;
    };
    index = refl;
    size = refl;
    unfinished = refl;
    value = refl;
    state = refl;
  }

  pub reset-IsFresh :
      (h : Hash Result)
      → 0 < block_size
      → length h.current_block ≡ block_size
      → length h.finalized_value ≡ tiger_hash_size
      → IsFresh (reset h)
  unfolding reset
  reset-IsFresh h lt block value = record {
    unfilled = record { room = lt; block = length-replicate (length h.current_block) 0 ∙ block };
    index = refl;
    size = refl;
    unfinished = refl;
    value = value;
    state = refl;
  }

  stored_value :
      (h : Hash Result) (value : Bytes)
      → h.finalized ≡ false
      → length value ≡ length h.finalized_value
      → (set_finalized_value h value).finalized_value ≡ value
  unfolding set_finalized_value
  stored_value h value f e =
      let t : (length value == length h.finalized_value) ≡ true = ground arith in
      rw (f, t, set_finalized_value)

  internal_finalize_padded :
      (h padded : Hash Result)
      → h.finalized ≡ false
      → finalize (tiger_config block_size) (hash beyond passes) h ≡ some padded
      → internal_finalize beyond passes block_size h
        ≡ some (record (set_finalized_value padded (value_bytes padded.state)) { finalized = true })
  unfolding internal_finalize
  internal_finalize_padded h padded f e = if_false _ _ f ∙ rw e refl

  finalized_digest :
      (h done : Hash Result)
      → internal_finalize beyond passes block_size h ≡ some done
      → digest beyond passes block_size h ≡ some (done, done.finalized_value)
  unfolding digest
  finalized_digest h done e = rw (e, digest) refl

  -- On a hash that is finalized `digest` returns its value, and changes nothing.
  pub digest_finalized :
      (h : Hash Result)
      → h.finalized ≡ true
      → digest beyond passes block_size h ≡ some (h, h.finalized_value)
  unfolding digest internal_finalize
  digest_finalized h f = finalized_digest h h (if_true _ _ f)

  -- For blocks of 64 bytes or more and fewer than 2^32, and any number of passes: `digest` of a
  -- fresh hash that has taken a message returns the bytes of the fold of `hash`, from the initial
  -- words, over the blocks of the padded message, and leaves a hash that is finalized.
  pub digest-tiger_update :
      (h : Hash Result) (msg : Bytes) (n r : ℕ)
      → 64 ≤ block_size
      → block_size < 2 ^ 32
      → IsFresh h
      → length msg ≡ n * block_size + r
      → r < block_size
      → (done : Hash Result) × (digest beyond passes block_size
            (tiger_update beyond passes block_size h msg)
          ≡ some (
            done,
            value_bytes (
                foldl (hash beyond passes) initial (
                  blocks block_size
                    (n + last_blocks (tiger_config block_size) (hash beyond passes) r)
                    (msg
                      ++ padding
                          (tiger_config block_size)
                          (hash beyond passes)
                          r
                          (wrap (length msg))))),
          ))
        × (done.finalized ≡ true)
  unfolding tiger_update
  digest-tiger_update h msg n r wide small fresh e lt =
      let c = tiger_config block_size in
      let kept =
        update-kept c (hash beyond passes) h msg fresh.unfilled fresh.unfinished
          (omega (arith, fresh.size)) in
      let (padded, ends, unfinished, value, state) =
        finalize-update c (hash beyond passes) (omega (arith, wide)) refl h msg n r small
          fresh.unfilled fresh.index fresh.size fresh.unfinished e lt in
      let done = record (set_finalized_value padded (value_bytes padded.state)) {
        finalized = true;
      } in
      (
        done,
        finalized_digest (update c (hash beyond passes) h msg) done (
              internal_finalize_padded (update c (hash beyond passes) h msg) padded
                (kept.0 ∙ fresh.unfinished) ends)
            ∙ ap (λ (v : Bytes). some (done, v))
                (stored_value padded (value_bytes padded.state) unfinished
                    (length-value_bytes padded.state ∙ sym (ap length value ∙ fresh.value))
                  ∙ ap value_bytes state
                  ∙ ap
                      (λ (s : Result). value_bytes (
                        foldl (hash beyond passes) s (
                          blocks block_size (n + last_blocks c (hash beyond passes) r)
                            (msg ++ padding c (hash beyond passes) r (wrap (length msg))))))
                      fresh.state),
        refl,
      )
