-- ===== src/Buffer/Append.antt =====
-- `gl_buf_append` and the text that a builder stands for.
use libgitledger.Prelude.{
  ℕ, ◌+◌, ◌-◌, ◌≤◌, ◌<◌, ◌≡◌, refl, sym, ap, subst, ◌∙◌, true, false, ◌||◌, Option, none, some, inl,
  inr, ◌⊎◌, [], ◌∷◌, ◌++◌, append_assoc, arith, ltb, leb, ◌==◌, if◌then◌else◌, Bool-cases, length,
  take, drop, write_at, take-append-drop, append-nil, length-append, length-take, take-append_le,
  take_all, write_at-append, drop-drop,
}
use libgitledger.Text.{Bytes}
use libgitledger.Buffer.{size_max, add_size, Buf, copy_in, account, store_chunk, append}
use libgitledger.Buffer.Contents.{room, overlaid, Holds, Represents}

-- Appending `chunk` to an array that holds all of `text`.
copy_in_array :
    (storage text chunk more : Bytes) (k j : ℕ)
    → k ≡ length text
    → k ≤ length storage
    → j ≡ k + length chunk
    → write_at (take k text ++ drop k storage) k chunk
      ≡ take j (text ++ (chunk ++ more)) ++ drop j storage
copy_in_array storage text chunk more k j e h f =
    rw (take_all k text (omega arith), write_at-append text (drop k storage) chunk k e, drop-drop)
      (rw (← f, ← append_assoc text chunk more, take-append_le j (text ++ chunk) more size)
        (rw (take_all j (text ++ chunk) (omega (arith, length-append text chunk)), append_assoc)))
  where
    size : j ≤ length (text ++ chunk)
    size = omega (arith, length-append text chunk)

-- The copy of a chunk, or of the part of it that fits, when nothing has been cut off before.
copy_in-array :
    (storage : Option Bytes) (text chunk more : Bytes) (buf : Buf)
    → buf.length ≡ length text
    → length text ≤ room storage
    → length text + length chunk ≤ size_max
    → buf.array ≡ overlaid buf.length text storage
    → (copy_in buf chunk).array
      ≡ overlaid (copy_in buf chunk).length (text ++ (chunk ++ more)) storage
copy_in-array none text chunk more buf e h g a = rw a
copy_in-array (some xs) text chunk more buf e h g a = rw a (
    ap some (
      copy_in_array xs text chunk more buf.length (add_size buf.length (length chunk)) e
        (omega arith) (omega arith)))

-- Text that does not fit any more is not seen in the array.
overlaid-append :
    (storage : Option Bytes) (text more : Bytes) (k : ℕ)
    → k ≤ length text
    → overlaid k (text ++ more) storage ≡ overlaid k text storage
overlaid-append none text more k h = refl
overlaid-append (some xs) text more k h = rw (take-append_le k text more h)

module _ {storage : Option Bytes} {cap : ℕ} {text : Bytes} {buf : Buf} (chunk : Bytes)
    (h : Holds storage cap text buf) (fits : length text + length chunk ≤ size_max) where
  -- A builder that is full, or only measures, keeps its array.
  full-Holds : (buf.overflow || buf.capacity == 0) ≡ true → Holds storage cap (text ++ chunk) buf
  full-Holds full = record {
    within = h.within;
    limit = h.limit;
    capacity = h.capacity;
    stored = ground (arith, length-append text chunk);
    array = h.array ∙ sym (overlaid-append storage text chunk buf.length (ground arith));
    overflow = ground (arith, length-append text chunk);
  }

  -- The part that fits is copied.
  part-Holds :
      (n : ℕ) (b : Buf)
      → (buf.overflow || buf.capacity == 0) ≡ false
      → n ≡ cap - length text - 1
      → n < length chunk
      → b ≡ record (copy_in buf (take n chunk)) { overflow = true }
      → Holds storage cap (text ++ chunk) b
  part-Holds n b space e lt f = rw f (record {
    within = h.within;
    limit = h.limit;
    capacity = h.capacity;
    stored = ground (arith, length-append text chunk, length-take n chunk);
    array =
        subst
          (λ c.
            (copy_in buf (take n chunk)).array
            ≡ overlaid (copy_in buf (take n chunk)).length (text ++ c) storage)
          (take-append-drop n chunk)
          (copy_in-array storage text (take n chunk) (drop n chunk) buf (ground arith)
            (ground (arith, h.within)) (omega (arith, length-take n chunk)) h.array);
    overflow = ground (arith, length-append text chunk);
  })

  -- A chunk that fits whole is copied whole.
  whole-Holds :
      (buf.overflow || buf.capacity == 0) ≡ false
      → length chunk ≤ cap - length text - 1
      → Holds storage cap (text ++ chunk) (copy_in buf chunk)
  whole-Holds space le = record {
    within = h.within;
    limit = h.limit;
    capacity = h.capacity;
    stored = ground (arith, length-append text chunk);
    array =
        subst
          (λ c. (copy_in buf chunk).array ≡ overlaid (copy_in buf chunk).length (text ++ c) storage)
          (append-nil chunk)
          (copy_in-array storage text chunk [] buf (ground arith) (ground (arith, h.within)) fits
            h.array);
    overflow = ground (arith, length-append text chunk);
  }

  -- With no room left, nothing is copied.
  none-Holds :
      (buf.overflow || buf.capacity == 0) ≡ false
      → cap - length text - 1 ≡ 0
      → 0 < length chunk
      → Holds storage cap (text ++ chunk) (record buf { overflow = true })
  none-Holds space e lt = record {
    within = h.within;
    limit = h.limit;
    capacity = h.capacity;
    stored = ground (arith, length-append text chunk);
    array = h.array ∙ sym (overlaid-append storage text chunk buf.length (ground arith));
    overflow = ground (arith, length-append text chunk);
  }

  available_lem :
      (buf.overflow || buf.capacity == 0) ≡ false
      → (if ltb (add_size buf.length 1) buf.capacity then buf.capacity - buf.length - 1 else 0)
        ≡ cap - length text - 1
  available_lem space = ground arith

  store_chunk-Holds : 0 < length chunk → Holds storage cap (text ++ chunk) (store_chunk buf chunk)
  unfolding store_chunk
  store_chunk-Holds pos = elim (Bool-cases (buf.overflow || buf.capacity == 0)) [
    | inl full ↦ rw full (full-Holds full)
    | inr space ↦ rw space (rw (available_lem space) (split space (Bool-cases _) (Bool-cases _)))
  ]
    where
      split :
          (buf.overflow || buf.capacity == 0) ≡ false
          → (ltb (cap - length text - 1) (length chunk) ≡ true)
            ⊎ (ltb (cap - length text - 1) (length chunk) ≡ false)
          → (ltb 0 (cap - length text - 1) ≡ true) ⊎ (ltb 0 (cap - length text - 1) ≡ false)
          → Holds storage cap (text ++ chunk) (
              if ltb (cap - length text - 1) (length chunk)
              then record (if ltb 0 (cap - length text - 1)
                  then copy_in buf (take (cap - length text - 1) chunk)
                  else buf) { overflow = true }
              else copy_in buf chunk)
      split space (inr le) z = rw le (whole-Holds space (ground arith))
      split space (inl lt) (inl z) = rw (lt, z) (part-Holds _ _ space refl (ground arith) refl)
      split space (inl lt) (inr z) = rw (lt, z) (none-Holds space (ground arith) pos)

  required-store_chunk : (store_chunk buf chunk).required ≡ buf.required
  unfolding store_chunk
  required-store_chunk = ground arith

account_lem :
    (text chunk : Bytes) (buf : Buf)
    → buf.required ≡ length text
    → length text + length chunk ≤ size_max
    → account buf (length chunk) ≡ record buf { required = length text + length chunk }
unfolding account
account_lem text chunk buf e fits = ground arith

saturated :
    (n : ℕ) (chunk : Bytes) (buf : Buf)
    → buf.required ≡ n
    → n ≤ size_max
    → length chunk ≤ size_max
    → size_max < n + length chunk
    → append buf chunk ≡ record buf { required = size_max; overflow = true }
unfolding append account store_chunk
saturated n chunk buf e limit small over =
    let some_bytes : (length chunk == 0) ≡ false = ground arith in
    let out : leb buf.required (size_max - length chunk) ≡ false = ground (arith, e) in
    rw some_bytes (rw out refl)

module _ {storage : Option Bytes} {cap : ℕ} where
  counted-Holds :
      {text : Bytes} {buf : Buf} (n : ℕ)
      → Holds storage cap text buf
      → Holds storage cap text (record buf { required = n })
  counted-Holds n h = record {
    within = h.within;
    limit = h.limit;
    capacity = h.capacity;
    stored = h.stored;
    array = h.array;
    overflow = h.overflow;
  }

  -- While the count stays in range.
  pub append-Represents :
      (text chunk : Bytes) (buf : Buf)
      → Represents storage cap text buf
      → length text + length chunk ≤ size_max
      → Represents storage cap (text ++ chunk) (append buf chunk)
  unfolding append
  append-Represents text [] buf rep fits = rw append-nil rep
  append-Represents text (c ∷ chunk) buf rep fits =
      let some_bytes : (length (c ∷ chunk) == 0) ≡ false = ground arith in
      let counted = counted-Holds (length text + length (c ∷ chunk)) rep.holds in
      rw some_bytes (
        rw (account_lem text (c ∷ chunk) buf rep.required fits) (record {
          holds = store_chunk-Holds (c ∷ chunk) counted fits (omega arith);
          required =
              required-store_chunk (c ∷ chunk) counted fits ∙ sym (length-append text (c ∷ chunk));
        }))

  -- Where a builder represents a text, which is to have counted all of it and to hold its front up
  -- to the capacity less one, and neither the text nor a chunk is longer than SIZE_MAX: if the
  -- lengths of both add up to SIZE_MAX at most, the builder after `append` represents the text
  -- with the chunk behind it; otherwise `append` sets the count to SIZE_MAX and the overflow flag,
  -- and changes nothing else.
  pub append_lem :
      (text chunk : Bytes) (buf : Buf)
      → Represents storage cap text buf
      → length text ≤ size_max
      → length chunk ≤ size_max
      → ((length text + length chunk ≤ size_max)
          × Represents storage cap (text ++ chunk) (append buf chunk))
        ⊎ ((size_max < length text + length chunk)
            × (append buf chunk ≡ record buf { required = size_max; overflow = true }))
  append_lem text chunk buf rep limit small =
      elim (Bool-cases (leb (length text + length chunk) size_max)) [
        | inl h ↦
            let fits : length text + length chunk ≤ size_max = ground (arith, h) in
            inl (fits, append-Represents text chunk buf rep fits)
        | inr h ↦
            let over : size_max < length text + length chunk = ground (arith, h) in
            inr (over, saturated (length text) chunk buf rep.required limit small over)
      ]
