-- ===== src/Server/Pipe/Flows.antt =====
-- server.go, `pipeConns`, one of its two goroutines: no byte is lost, added or moved.
use gocloak.Base.{
  ℕ, ◌≡◌, refl, sym, ap, ◌∙◌, Bool, true, false, Bytes, [], ◌∷◌, ◌++◌, append_assoc, length,
  length-append, take, drop, take-append-drop, arith, ltb, if◌then◌else◌, if-intro,
}
use gocloak.Server.Pipe.{
  Phase, copying, ended, half_closed, returned, Flow, pass_on, written_of, copy_round, after_round,
}

-- One way that started with `sent` written and `source` to come: the destination got a first part of the
-- source, byte for byte, and the count is the length of this part. While the copy goes on, the rest is
-- still to come.
pub record Delivers (source sent : Bytes) (f : Flow) : Type 0 where
  pub got : Bytes
  pub rest : Bytes
  pub first_part : source ≡ got ++ rest
  pub delivered : f.delivered ≡ sent ++ got
  pub count : f.count ≡ length got
  pub to_come : f.phase ≡ copying → f.incoming ≡ rest

module _ (source sent : Bytes) where
  -- A round of a copy that reads these bytes and writes this part of them.
  pass_on-Delivers :
      (read written unwritten later : Bytes) (f : Flow)
      → f.incoming ≡ read ++ later
      → read ≡ written ++ unwritten
      → drop (length read) f.incoming ≡ later
      → (after_round read written ≡ copying → unwritten ≡ [])
      → Delivers source sent f
      → f.phase ≡ copying
      → Delivers source sent (pass_on read written f)
  pass_on-Delivers read written unwritten later f split parts dropped whole d on = record {
    got = d.got ++ written;
    rest = unwritten ++ later;
    first_part =
        d.first_part
        ∙ ap (λ (r : Bytes). d.got ++ r)
            (sym (d.to_come on)
              ∙ split
              ∙ ap (λ (r : Bytes). r ++ later) parts
              ∙ append_assoc written unwritten later)
        ∙ sym (append_assoc d.got written (unwritten ++ later));
    delivered = ap (λ (g : Bytes). g ++ written) d.delivered ∙ append_assoc sent d.got written;
    count = omega (arith, d.count, length-append d.got written);
    to_come = λ more. dropped ∙ ap (λ (u : Bytes). u ++ later) (sym (whole more));
  }

  no_length : (xs : Bytes) → length xs ≡ 0 → xs ≡ []
  no_length [] h = refl
  no_length (x ∷ xs) h = absurd (omega arith)

  whole-round :
      (read written unwritten : Bytes)
      → read ≡ written ++ unwritten
      → after_round read written ≡ copying
      → unwritten ≡ []
  whole-round read written unwritten parts more =
      let all_lengths = ap length parts ∙ length-append written unwritten in
      let not_short : ltb (length written) (length read) ≡ false = ground arith in
      no_length unwritten (ground (arith, all_lengths))

  drop-length-take : (n : ℕ) (xs : Bytes) → drop (length (take n xs)) xs ≡ drop n xs
  drop-length-take Prim.Native.Nat.zero xs = refl
  drop-length-take (Prim.Native.Nat.suc n) [] = refl
  drop-length-take (Prim.Native.Nat.suc n) (x ∷ xs) = drop-length-take n xs

  read-Delivers :
      (destination_closed : Bool) (n m : ℕ) (f : Flow)
      → Delivers source sent f
      → f.phase ≡ copying
      → let read = take n f.incoming in
        Delivers source sent (pass_on read (written_of destination_closed m read) f)
  read-Delivers destination_closed n m f d on =
      let read = take n f.incoming in
      let split = sym (take-append-drop n f.incoming) in
      let dropped = drop-length-take n f.incoming in
      elim destination_closed
        as (λ b. Delivers source sent (pass_on read (written_of b m read) f)) [
          | true ↦
              pass_on-Delivers read [] read (drop n f.incoming) f split refl dropped
                (whole-round read [] read refl) d on
          | false ↦
              let parts = sym (take-append-drop m read) in
              pass_on-Delivers read (take m read) (drop m read) (drop n f.incoming) f split parts
                dropped (whole-round read (take m read) (drop m read) parts) d on
        ]

  -- A goroutine that is no longer in its copy owes nothing.
  pub ended-Delivers :
      (f f' : Flow)
      → Delivers source sent f
      → f'.delivered ≡ f.delivered
      → f'.count ≡ f.count
      → (f'.phase ≡ copying → f'.incoming ≡ f.incoming × (f.phase ≡ copying))
      → Delivers source sent f'
  ended-Delivers f f' d delivered count still = record {
    got = d.got;
    rest = d.rest;
    first_part = d.first_part;
    delivered = delivered ∙ d.delivered;
    count = count ∙ d.count;
    to_come = λ on. let (same, was) = still on in same ∙ d.to_come was;
  }

  pub copy_round-Delivers :
      (source_closed destination_closed : Bool) (n m : ℕ) (f : Flow)
      → Delivers source sent f
      → Delivers source sent (copy_round source_closed destination_closed n m f)
  unfolding copy_round
  copy_round-Delivers source_closed destination_closed n m f d = at_phase f.phase refl
    where
      at_phase :
          (ph : Phase)
          → f.phase ≡ ph
          → Delivers source sent (elim ph [
            | copying ↦
                if source_closed
                then record f { phase = ended }
                else let read = take n f.incoming in
                  pass_on read (written_of destination_closed m read) f
            | _ ↦ f
          ])
      at_phase copying on =
          if-intro (Delivers source sent) source_closed
            (λ closed. ended-Delivers f (record f { phase = ended }) d refl refl (λ on. cc))
            (λ open_. read-Delivers destination_closed n m f d on)
      at_phase ended off = d
      at_phase half_closed off = d
      at_phase returned off = d
