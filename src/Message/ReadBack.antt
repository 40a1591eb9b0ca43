-- ===== src/Message/ReadBack.antt =====
-- src/message.rs: the sections that were written into a message are read back.
use recurse_x.Prelude.{
  ℕ, suc, ◌+◌, ◌^◌, ◌≤◌, ◌<◌, ◌≡◌, refl, ◌∙◌, Bool, true, false, Option, none, List, [], ◌∷◌, ◌++◌,
  length, length-append, ◌==◌, All, arith,
}
use recurse_x.Error.{ok, ◌>>=◌, >>=-eq-ok, ok-injective}
use recurse_x.Wire.{IsByte, usize_limit, to_be_bytes}
use recurse_x.Wire.Holds.{Holds-left, u16_at-Holds}
use recurse_x.Edns.{Edns}
use recurse_x.Rdata.{Record}
use recurse_x.Rdata.ToWire.{Sink, push, put_name}
use recurse_x.Rdata.Records as Records
use recurse_x.Rdata.Grows.{put_name-Grows}
use recurse_x.Rdata.Sinks.{
  IsName, Within, Within-le, IsSink, put_name-PutName, put_name-IsSink, push-Within, push-Holds,
  push-IsSink,
}
use recurse_x.Rdata.Readers.{Holds-word}
use recurse_x.Rdata.RecordTrip.{IsRecord, record-trip}
use recurse_x.Message.Sections.{Question}
use recurse_x.Message.Parse.{parse_question, parse_questions, parse_records, parse_additionals}
use recurse_x.Message.ToBytes.{put_questions, put_records}
use recurse_x.Message.Chains.{put_records-Within, put_questions-Within}

pub record IsQuestion (q : Question) : Type 0 where
  pub name : IsName q.qname
  pub qtype : q.qtype.code < 2 ^ 16
  pub qclass : q.qclass.code < 2 ^ 16

when_false {ℓ} :
    {A : Type ℓ} (test : Bool) (a b : A) → test ≡ false → elim test [ true ↦ a | false ↦ b ] ≡ b
when_false test a b h = rw h refl

-- A record that is no OPT record.
additional-step :
    (buf : List ℕ) (r : Record) (pos next n : ℕ) (edns : Option Edns)
    → Records.parse buf pos ≡ ok (r, next)
    → (r.rr_type.code == 41) ≡ false
    → parse_additionals buf (suc n) edns pos
      ≡ (parse_additionals buf n edns next >>= λ more. ok (r ∷ more.0, more.1))
additional-step buf r pos next n edns head other =
    unfold parse_additionals in rw head (when_false (r.rr_type.code == 41) _ _ other)

module _ (buf : List ℕ) (bytes : All IsByte buf) (roomy : length buf + 256 ≤ usize_limit) where
  room : length buf < usize_limit
  room = omega arith

  words : Question → List ℕ
  words q = to_be_bytes 2 q.qtype.code ++ to_be_bytes 2 q.qclass.code

  question-read :
      (s : Sink) (q : Question)
      → IsQuestion q
      → IsSink s
      → Within buf (push (put_name s q.qname) (words q))
      → (parse_question buf (length s.out)
          ≡ ok (q, length (push (put_name s q.qname) (words q)).out))
        × IsSink (push (put_name s q.qname) (words q))
  unfolding parse_question words
  question-read s q is t w =
      let s1 = put_name s q.qname in
      let p = length s1.out in
      let kind = to_be_bytes 2 q.qtype.code in
      let class = to_be_bytes 2 q.qclass.code in
      let inside = Within-le buf (push s1 (kind ++ class)) w in
      let size : length (push s1 (kind ++ class)).out ≡ p + 4 =
        unfold push to_be_bytes in omega (arith, length-append s1.out (kind ++ class)) in
      let g = (put_name-Grows s q.qname).longer in
      let t1 = put_name-IsSink s q.qname is.name (omega arith) t in
      let put =
        put_name-PutName buf bytes roomy s q.qname is.name t
          (push-Within buf s1 (kind ++ class) w) in
      let h = push-Holds buf s1 (kind ++ class) w in
      let h2 = Holds-word buf p (p + 2) 2 q.qtype.code class refl h in
      let read = u16_at-Holds buf room p q.qtype.code is.qtype (Holds-left buf p kind class h) in
      let read' = u16_at-Holds buf room (p + 2) q.qclass.code is.qclass h2 in
      (rw (put.read, read, read', size) refl, push-IsSink buf s1 (kind ++ class) inside room t1)

  pub questions-read :
      (questions : List Question) (s : Sink)
      → All IsQuestion questions
      → IsSink s
      → Within buf (put_questions questions s)
      → (parse_questions buf (length questions) (length s.out)
          ≡ ok (questions, length (put_questions questions s).out))
        × IsSink (put_questions questions s)
  unfolding parse_questions put_questions words
  questions-read [] s is t w = (refl, t)
  questions-read (q ∷ questions) s (is, more) t w =
      let s' = push (put_name s q.qname) (words q) in
      let (head, t') = question-read s q is t (put_questions-Within buf questions s' w) in
      let (tail, end) = questions-read questions s' more t' w in (rw (head, tail) refl, end)

  pub records-read :
      (records : List Record) (s t : Sink)
      → All IsRecord records
      → IsSink s
      → put_records records s ≡ ok t
      → Within buf t
      → (parse_records buf (length records) (length s.out) ≡ ok (records, length t.out)) × IsSink t
  unfolding parse_records put_records
  records-read [] s t is sound e w = let same : s ≡ t = ok-injective e in rw (← same) (refl, sound)
  records-read (r ∷ records) s t (is, more) sound e w =
      let (s', first, rest) = >>=-eq-ok (Records.to_wire r s) (put_records records) e in
      let (head, sound', _) =
        record-trip buf bytes roomy s s' r is sound first
          (put_records-Within buf records s' t rest w) in
      let (tail, end) = records-read records s' t more sound' rest w in (rw (head, tail) refl, end)

  -- The additional section, behind which `rest` more records stand.
  pub additionals-read :
      (records : List Record) (rest : ℕ) (s t : Sink) (edns : Option Edns)
      → All (λ r. IsRecord r × ((r.rr_type.code == 41) ≡ false)) records
      → IsSink s
      → put_records records s ≡ ok t
      → Within buf t
      → (IsSink t → parse_additionals buf rest none (length t.out) ≡ ok ([], edns))
      → parse_additionals buf (length records + rest) none (length s.out) ≡ ok (records, edns)
  unfolding parse_additionals put_records
  additionals-read [] rest s t edns is sound e w last =
      let same : s ≡ t = ok-injective e in
      let none_more : 0 + rest ≡ rest = omega arith in
      rw (none_more, same) (last (rw same at sound))
  additionals-read (r ∷ records) rest s t edns ((is, other), more) sound e w last =
      let (s', first, rest_written) = >>=-eq-ok (Records.to_wire r s) (put_records records) e in
      let (head, sound', _) =
        record-trip buf bytes roomy s s' r is sound first
          (put_records-Within buf records s' t rest_written w) in
      let tail = additionals-read records rest s' t edns more sound' rest_written w last in
      let one_more : suc (length records) + rest ≡ suc (length records + rest) = omega arith in
      rw one_more (
        additional-step buf r (length s.out) (length s'.out) (length records + rest) none head other
        ∙ rw tail refl)
