-- ===== src/Protocols/EdlPacket/Plain.antt =====
-- Packages that do what the theorems on EDL packets ask of them, with a plain layout of frames.
use mathlib.Core.List.{append_assoc}
use oresat_c3_software.Prelude.{
  ℕ, zero, suc, ◌+◌, ◌≡◌, refl, sym, ap, ◌∙◌, arith, List, [], ◌∷◌, ◌++◌, some, length,
  length-append, length-replicate, replicate, take, drop, take-append, drop-append_eq, but_last,
  but_last-append, Result, ok, err,
}
use oresat_c3_software.Protocols.EdlPacket.{
  TransferFrame, SrcDest, dest, source, Packages, Raised, expected,
}
use oresat_c3_software.Protocols.EdlPacket.RoundTrip.{IsPackages}

abbrev pub direction : SrcDest → ℕ
direction source = 0
direction dest = 1

abbrev pub of_direction : ℕ → SrcDest
of_direction zero = source
of_direction (suc n) = dest

of_direction_lem : (d : SrcDest) → of_direction (direction d) ≡ d
of_direction_lem source = refl
of_direction_lem dest = refl

-- A header of 7 numbers, the insert zone, and the header of the data field.
abbrev pub layout : TransferFrame → List ℕ
layout f =
    f.scid
    ∷ (f.vcid
        ∷ (direction f.src_dest
            ∷ (f.frame_len ∷ (0 ∷ (0 ∷ (0 ∷ (f.insert_zone ++ (0 ∷ f.tfdz))))))))

abbrev pub parse : List ℕ → Result Raised TransferFrame
parse (scid ∷ vcid ∷ d ∷ frame_len ∷ a ∷ b ∷ c ∷ rest) = ok (record {
  scid = scid;
  vcid = vcid;
  src_dest = of_direction d;
  frame_len = frame_len;
  insert_zone = take 4 rest;
  tfdz = but_last 2 (drop 5 rest);
})
parse _ = err expected

abbrev pub packages : Packages (List ℕ)
packages = record {
  crc_hqx = λ raw. length raw;
  digest = λ key message. replicate 32 (length key + length message);
  frame_pack = λ f. some (layout f);
  frame_unpack = parse;
  pdu_pack = λ p. some p;
  pdu_from_raw = λ raw. ok raw;
}

take_zone : (zone rest : List ℕ) → length zone ≡ 4 → take 4 (zone ++ rest) ≡ zone
take_zone zone rest h = ap (λ (n : ℕ). take n (zone ++ rest)) (sym h) ∙ take-append zone rest

drop_zone : (zone rest : List ℕ) → length zone ≡ 4 → drop 5 (zone ++ (0 ∷ rest)) ≡ rest
drop_zone zone rest h =
    ap (λ (t : List ℕ). drop 5 t) (sym (append_assoc zone (0 ∷ []) rest))
    ∙ drop-append_eq 5 (zone ++ (0 ∷ [])) rest (omega (arith, length-append zone (0 ∷ [])))

parse-layout :
    (f : TransferFrame) (fecf : List ℕ)
    → length f.insert_zone ≡ 4
    → length fecf ≡ 2
    → parse (layout f ++ fecf) ≡ ok f
parse-layout f fecf h k =
    let zone = f.insert_zone in
    let e : (zone ++ (0 ∷ f.tfdz)) ++ fecf ≡ zone ++ (0 ∷ (f.tfdz ++ fecf)) =
      append_assoc zone (0 ∷ f.tfdz) fecf in
    let t : but_last 2 (drop 5 (zone ++ (0 ∷ (f.tfdz ++ fecf)))) ≡ f.tfdz =
      ap (λ (r : List ℕ). but_last 2 r) (drop_zone zone (f.tfdz ++ fecf) h)
      ∙ but_last-append 2 f.tfdz fecf k in
    rw (e, t, take_zone zone (0 ∷ (f.tfdz ++ fecf)) h, of_direction_lem f.src_dest) refl

pub packages-IsPackages : IsPackages packages
packages-IsPackages = record {
  digest_len = λ key message. length-replicate {A = ℕ} 32 (length key + length message);
  frames = λ f a b c zone d. (
    layout f,
    refl,
    omega (arith, length-append f.insert_zone (0 ∷ f.tfdz)),
    λ fecf k. parse-layout f fecf zone k,
  );
}
