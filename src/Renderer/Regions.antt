-- ===== src/Renderer/Regions.antt =====
-- The regions of a transaction: each is drawn with the bytes that were encoded for it, in the order
-- chosen, and the bytes of all stay within the limit.
use mathlib.Core.Path.{subst}
use rasterm.Base.{
  ℕ, zero, suc, ◌+◌, ◌-◌, ◌<◌, ◌≤◌, max, ◌≡◌, refl, sym, ap, ◌∙◌, inl, inr, false, ◌&&◌, Option,
  none, some, List, [], ◌∷◌, ◌++◌, map, append_assoc, append-nil, ltb, leb, ◌==◌, if◌then◌else◌,
  Bool-cases, length, length-append, take, drop, All, arith,
}
use rasterm.Damage.Rect.{DamageRegion}
use rasterm.Renderer.State.{Frame, Backend}
use rasterm.Renderer.Render.{EncodedRegion, encode_regions}

take-all {ℓ} : {A : Type ℓ} (xs : List A) → take (length xs) xs ≡ xs
take-all [] = refl
take-all (x ∷ xs) = rw (take-all xs)

take-append {ℓ} :
    {A : Type ℓ} (n : ℕ) (xs ys : List A) → n ≤ length xs → take n (xs ++ ys) ≡ take n xs
take-append zero xs ys h = refl
take-append (suc n) [] ys h = absurd (omega arith)
take-append (suc n) (x ∷ xs) ys h = rw (take-append n xs ys (omega arith))

-- The bytes of an entry, in what was written before more bytes follow.
slice-append {ℓ} :
    {A : Type ℓ} (offset size : ℕ) (xs ys : List A)
    → offset + size ≤ length xs
    → take size (drop offset (xs ++ ys)) ≡ take size (drop offset xs)
slice-append zero size xs ys h = take-append size xs ys (omega arith)
slice-append (suc offset) size [] ys h = absurd (omega arith)
slice-append (suc offset) size (x ∷ xs) ys h = slice-append offset size xs ys (omega arith)

slice-here {ℓ} : {A : Type ℓ} (xs ys : List A) → take (length ys) (drop (length xs) (xs ++ ys)) ≡ ys
slice-here [] ys = take-all ys
slice-here (x ∷ xs) ys = slice-here xs ys

All-append {ℓ κ} :
    {A : Type ℓ} (P : A → Type κ) (xs : List A) (y : A) → All P xs → P y → All P (xs ++ y ∷ [])
All-append P [] y h k = (k, tt)
All-append P (x ∷ xs) y h k = (h.0, All-append P xs y h.1 k)

All-each {ℓ κ} :
    {A : Type ℓ} (P Q : A → Type κ) → ((x : A) → P x → Q x) → (xs : List A) → All P xs → All Q xs
All-each P Q f [] h = tt
All-each P Q f (x ∷ xs) h = (f x h.0, All-each P Q f xs h.1)

map-append-one {ℓ κ} :
    {A : Type ℓ} {B : Type κ} (f : A → B) (xs : List A) (y : A)
    → map f (xs ++ y ∷ []) ≡ map f xs ++ f y ∷ []
map-append-one f [] y = refl
map-append-one f (x ∷ xs) y = ap (λ zs. f x ∷ zs) (map-append-one f xs y)

-- The bytes of an entry among those of the transaction.
abbrev pub slice : EncodedRegion → List ℕ → List ℕ
slice entry bytes = take entry.size (drop entry.offset bytes)

abbrev pub region_of : EncodedRegion → DamageRegion
region_of entry = entry.region

module _ {S : Type 0} (b : Backend S) (f : Frame) where
  -- The entry's bytes lie within the transaction and are what the backend returned for its region.
  pub record IsEncoded (bytes : List ℕ) (entry : EncodedRegion) : Type 0 where
    pub within : entry.offset + entry.size ≤ length bytes
    pub state : S
    pub encoded : (b.encode_region f entry.region state).0 ≡ slice entry bytes

  IsEncoded-append :
      (bytes more : List ℕ) (entry : EncodedRegion)
      → IsEncoded bytes entry
      → IsEncoded (bytes ++ more) entry
  IsEncoded-append bytes more entry e = record {
    within = omega (arith, e.within, length-append bytes more);
    state = e.state;
    encoded = e.encoded ∙ sym (slice-append entry.offset entry.size bytes more e.within);
  }

  -- The outcome of the loop from `bytes` and `entries` on.
  Succeeds : ℕ → List DamageRegion → Option (List ℕ × List EncodedRegion × ℕ) → Type 0
  Succeeds limit regions none = Unit {0}
  Succeeds limit regions (some (bytes, entries, colors)) =
      All (IsEncoded bytes) entries
      × (map region_of entries ≡ regions)
      × (0 < limit → length bytes ≤ limit)

  module _
      (honours : (limit : ℕ) (region : DamageRegion) (s : S)
        → 0 < limit
        → let (sixel, s') = b.encode_region f region (b.set_output_limit limit s) in
          b.output_limit_exceeded s' ≡ false → length sixel ≤ limit) where
    encode_regions-from :
        (limit : ℕ) (rs done : List DamageRegion) (bytes : List ℕ) (entries : List EncodedRegion)
        (colors : ℕ) (s : S)
        → All (IsEncoded bytes) entries
        → map region_of entries ≡ done
        → (0 < limit → length bytes ≤ limit)
        → Succeeds limit (done ++ rs) (encode_regions b f limit rs bytes entries colors s).0
    unfolding Succeeds encode_regions
    encode_regions-from limit [] done bytes entries colors s all e w =
        (all, e ∙ sym (append-nil done), w)
    encode_regions-from limit (region ∷ rs) done bytes entries colors s all e w =
        elim (Bool-cases (ltb 0 limit && leb limit (length bytes))) [
          | inl full ↦ rw (full, encode_regions) tt
          | inr room ↦ elim (Bool-cases (b.output_limit_exceeded encoded.1)) [
            | inl exceeded ↦ rw (room, exceeded, encode_regions) tt
            | inr fits ↦
                rw (room, fits, encode_regions)
                  (subst
                    (λ regions.
                      Succeeds limit regions
                        (encode_regions b f limit rs (bytes ++ encoded.0) (entries ++ entry ∷ [])
                          (max colors (b.last_color_count encoded.1)) encoded.1).0)
                    (append_assoc done (region ∷ []) rs)
                    (encode_regions-from limit rs (done ++ region ∷ []) (bytes ++ encoded.0)
                      (entries ++ entry ∷ []) (max colors (b.last_color_count encoded.1)) encoded.1
                      (grown)
                      (map-append-one region_of entries entry ∙ ap (λ rs'. rs' ++ region ∷ []) e)
                      (λ pos. bounded pos room fits)))
          ]
        ]
      where
        remaining : ℕ
        remaining = if limit == 0 then 0 else limit - length bytes

        encoded : List ℕ × S
        encoded =
            b.encode_region f region (b.set_output_limit remaining (b.prepare_region f region s))

        entry : EncodedRegion
        entry = record {
          region = region;
          offset = length bytes;
          size = length encoded.0;
          colors_used = b.last_color_count encoded.1;
        }

        grown : All (IsEncoded (bytes ++ encoded.0)) (entries ++ entry ∷ [])
        grown =
            All-append (IsEncoded (bytes ++ encoded.0)) entries entry
              (All-each (IsEncoded bytes) (IsEncoded (bytes ++ encoded.0))
                (IsEncoded-append bytes encoded.0) entries all)
              (record {
                within = omega (arith, length-append bytes encoded.0);
                state = b.set_output_limit remaining (b.prepare_region f region s);
                encoded = sym (slice-here bytes encoded.0);
              })

        room_left :
            0 < limit
            → (ltb 0 limit && leb limit (length bytes)) ≡ false
            → (remaining ≡ limit - length bytes) × (0 < limit - length bytes)
        room_left pos room = (ground arith, ground arith)

        bounded :
            0 < limit
            → (ltb 0 limit && leb limit (length bytes)) ≡ false
            → b.output_limit_exceeded encoded.1 ≡ false
            → length (bytes ++ encoded.0) ≤ limit
        bounded pos room fits =
            let (left, some_left) = room_left pos room in
            omega (
              arith,
              length-append bytes encoded.0,
              left,
              some_left,
              honours remaining region (b.prepare_region f region s)
                  (omega (arith, left, some_left)) fits,
            )

    -- When the regions of a transaction are encoded, there is one entry for each of them, in their order;
    -- the bytes that are drawn for an entry are those that the backend returned for its region; and
    -- the bytes of all stay within the limit, if there is one and the backend keeps to the limit that it
    -- is given for each region.
    pub encode_regions-IsEncoded :
        (limit : ℕ) (regions : List DamageRegion) (s : S) (bytes : List ℕ)
        (entries : List EncodedRegion) (colors : ℕ)
        → (encode_regions b f limit regions [] [] 0 s).0 ≡ some (bytes, entries, colors)
        → All (IsEncoded bytes) entries
          × (map region_of entries ≡ regions)
          × (0 < limit → length bytes ≤ limit)
    unfolding Succeeds
    encode_regions-IsEncoded limit regions s bytes entries colors e =
        subst (Succeeds limit regions) e
          (encode_regions-from limit regions [] [] [] 0 s tt refl (λ pos. omega arith))
