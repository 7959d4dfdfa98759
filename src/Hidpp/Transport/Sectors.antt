-- ===== src/Hidpp/Transport/Sectors.antt =====
-- Reading a flash sector in 16-byte requests.
pub mod Content
use abrek_mouse.Prelude.{
  ℕ, zero, suc, ◌+◌, ◌-◌, ◌*◌, ◌/◌, ◌%◌, ◌^◌, ◌≤◌, ◌<◌, min, max, ◌≡◌, refl, sym, ap, ◌∙◌, ◌≢◌, ◌↔◌,
  ◌⊎◌, inl, inr, Bool, true, false, not, ◌&&◌, ◌||◌, Option, none, some, List, [], ◌∷◌, ◌++◌, map,
  append-nil, append_assoc, arith, ltb, leb, ◌==◌, if◌then◌else◌, ltb→lt, lt→ltb, leb→le, ==_iff,
  tests, Bool-cases, Option-cases, length, get_or, take, drop, replicate, length-append,
  length-take, length-drop, length-replicate, take-append-drop, take-length, All, any_of, find_if,
  dec_lt, Text, codes, text_eq, text_eq_sound, text_eq_refl, is_empty, is_digit, to_lower, ℤ, pos,
  negsuc, ltz, Mem, All-mono, All-zip, All-append, append-All, Mem-append,
}
use abrek_mouse.Hidpp.Bytes.{
  IsByte, IsU16, at, bit, hi_byte, lo_byte, be16, read_be16, bounded_string, bytes_to_hex,
  at-IsByte,
}
use abrek_mouse.Hidpp.Transport.Waiting.{Heard}
use abrek_mouse.Hidpp.Packet.{normalize_function_id, is_hidpp_error}
use abrek_mouse.Hidpp.Transport.Answers.{send_feature_request-Sound, frame_of}
use abrek_mouse.Hidpp.Features.{FeatureIds}
use abrek_mouse.Hidpp.Transport.Monad.{M, pure}
use abrek_mouse.Hidpp.Transport.State.{Transport, target_of}
use abrek_mouse.Hidpp.Transport.Request.{
  feature_request, feature_frame, resolve_feature_index, send_feature_request,
}
use abrek_mouse.Hidpp.Transport.Onboard.{
  read_sector_from, read_onboard_profile_sector, enough, sector_readable, get_onboard_profile_info,
  OnboardInfo,
}

enough-length :
    (reply : Option (List ℕ)) (wanted : ℕ) (d : List ℕ)
    → enough reply wanted ≡ some d
    → length d ≡ wanted
enough-length none wanted d e = cc
enough-length (some []) wanted d e = cc
enough-length (some (b ∷ x)) wanted d e = ground (arith, length-take wanted (b ∷ x))

module _ (ids : FeatureIds) (sector target : ℕ) where
  abbrev pub chunk_at : ℕ → M (Option (List ℕ))
  chunk_at offset =
      feature_request ids.onboard_profiles 0x50
        (hi_byte sector ∷ lo_byte sector ∷ hi_byte offset ∷ lo_byte offset ∷ []) target

  -- What the loop does with a reply.
  unfoldable pub next : ℕ → ℕ → ℕ → List ℕ → Option (List ℕ) → M (Option (List ℕ))
  next fuel offset size acc none = pure none
  next fuel offset size acc (some chunk) =
      read_sector_from ids sector target fuel (offset + 16) size (acc ++ chunk)

  -- One round of the loop.
  pub round :
      (fuel offset size : ℕ) (acc : List ℕ) (t : Transport)
      → offset < size
      → read_sector_from ids sector target (suc fuel) offset size acc t
        ≡ next fuel offset size acc
            (enough (chunk_at offset t).0 (min 16 (size - offset)))
            (chunk_at offset t).1
  unfolding read_sector_from next
  round fuel offset size acc t h =
      let go : ltb offset size ≡ true = ground arith in rw (go, read_sector_from) refl

  pub done :
      (fuel offset size : ℕ) (acc : List ℕ) (t : Transport)
      → size ≤ offset
      → read_sector_from ids sector target (suc fuel) offset size acc t ≡ (some acc, t)
  unfolding read_sector_from
  done fuel offset size acc t h =
      let over : ltb offset size ≡ false = ground arith in rw (over, read_sector_from) refl

  next-fuel :
      (a b offset size : ℕ) (acc : List ℕ) (o : Option (List ℕ)) (t : Transport)
      → ((chunk : List ℕ)
          → read_sector_from ids sector target a (offset + 16) size (acc ++ chunk) t
            ≡ read_sector_from ids sector target b (offset + 16) size (acc ++ chunk) t)
      → next a offset size acc o t ≡ next b offset size acc o t
  unfolding next
  next-fuel a b offset size acc none t same = refl
  next-fuel a b offset size acc (some chunk) t same = same chunk

  -- The fuel is enough: with a rest of the sector that a rounds and b rounds of 16 bytes cover, a + 1
  -- and b + 1 rounds of fuel give the same result.
  pub read_sector_from-fuel :
      (a b offset size : ℕ) (acc : List ℕ) (t : Transport)
      → size ≤ offset + 16 * a
      → size ≤ offset + 16 * b
      → read_sector_from ids sector target (suc a) offset size acc t
        ≡ read_sector_from ids sector target (suc b) offset size acc t
  read_sector_from-fuel zero b offset size acc t h k =
      done zero offset size acc t (omega arith) ∙ sym (done b offset size acc t (omega arith))
  read_sector_from-fuel (suc a) zero offset size acc t h k =
      done (suc a) offset size acc t (omega arith) ∙ sym (done zero offset size acc t (omega arith))
  read_sector_from-fuel (suc a) (suc b) offset size acc t h k = elim (dec_lt offset size) [
    | no late ↦
        done (suc a) offset size acc t (omega arith)
        ∙ sym (done (suc b) offset size acc t (omega arith))
    | yes more ↦
        rw (round (suc a) offset size acc t more, round (suc b) offset size acc t more)
          (next-fuel (suc a) (suc b) offset size acc
            (enough (chunk_at offset t).0 (min 16 (size - offset))) (chunk_at offset t).1
            (λ chunk.
              read_sector_from-fuel a b (offset + 16) size (acc ++ chunk) (chunk_at offset t).1
                (omega arith) (omega arith)))
  ]

  pub read_sector_from-length :
      (fuel offset size : ℕ) (acc d : List ℕ) (t : Transport)
      → length acc ≡ min offset size
      → (read_sector_from ids sector target fuel offset size acc t).0 ≡ some d
      → length d ≡ size
  read_sector_from-length zero offset size acc d t h e = unfold read_sector_from in cc
  read_sector_from-length (suc fuel) offset size acc d t h e = elim (dec_lt offset size) [
    | no late ↦
        let same : acc ≡ d = cc (rw (done fuel offset size acc t (omega arith)) at e) in
        rw (sym same) (ground arith)
    | yes more ↦
        let wanted = min 16 (size - offset) in
        elim (Option-cases (enough (chunk_at offset t).0 wanted)) [
          | inl n ↦ unfold next in cc (rw (round fuel offset size acc t more, n) at e)
          | inr (chunk, n) ↦
              let size_ok = enough-length (chunk_at offset t).0 wanted chunk n in
              read_sector_from-length fuel (offset + 16) size (acc ++ chunk) d (chunk_at offset t).1
                (ground (arith, length-append acc chunk))
                (unfold next in rw (round fuel offset size acc t more, n) at e)
        ]
  ]
