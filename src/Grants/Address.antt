-- ===== src/Grants/Address.antt =====
-- The address in an answer of the backend, as the client of internal/grants/client.go decodes it.
use rook_servicechannel_gate.Base.{
  ◌≡◌, ◌≢◌, true, false, none, some, sym, refl, ap, ◌∙◌, [], ◌⊎◌, inl, inr, Option-cases,
  Bool-cases, arith,
}
use rook_servicechannel_gate.Base.Text.{Bytes, text}
use rook_servicechannel_gate.Base.Text.Trim.{trim_space}
use rook_servicechannel_gate.Json.{Json, null, bool, num, str, arr, obj, Members, end, member}
use rook_servicechannel_gate.Json.Parse.{whole_value}
use rook_servicechannel_gate.Json.Decode.{
  names, as_string, Assign, unknown, mismatch, assigned, decode_members, decode_value, unmarshal,
}
use rook_servicechannel_gate.Grants.Client.{assign_ip}

-- No member of the name `ipAddress` has a value but `null`. Names match up to case.
abbrev pub Lacks : Members → Type 0
Lacks end = Unit
Lacks (member k v m) = ((names k (text "ipAddress") ≡ false) ⊎ (v ≡ null)) × Lacks m

-- This is the text of the last member of the name `ipAddress` that is not `null`.
abbrev pub Gives : Members → Bytes → Type 0
Gives end ip = ⊥
Gives (member k v m) ip = Gives m ip ⊎ (names k (text "ipAddress") ≡ true) × (v ≡ str ip) × Lacks m

-- The text is an object that gives the address.
abbrev pub AnswersWith : Bytes → Bytes → Type 0
AnswersWith body ip = (m : Members) × (whole_value body ≡ some (obj m)) × Gives m ip

later_gives :
    (k : Bytes) (v : Json) (m : Members) (old ip : Bytes)
    → (names k (text "ipAddress") ≡ false) ⊎ (v ≡ null)
    → Gives m ip ⊎ Lacks m × (ip ≡ old)
    → Gives (member k v m) ip ⊎ Lacks (member k v m) × (ip ≡ old)
later_gives k v m old ip passed (inl h) = inl (inl h)
later_gives k v m old ip passed (inr (h, e)) = inr ((passed, h), e)

-- A member is passed over, or gives the address, or cannot be decoded.
abbrev Assigns : Bytes → Json → Bytes → Assign Bytes → Type 0
Assigns k v old a =
    (((names k (text "ipAddress") ≡ false) ⊎ (v ≡ null)) × ((a ≡ unknown) ⊎ (a ≡ assigned old)))
    ⊎ ((t : Bytes) × (names k (text "ipAddress") ≡ true) × (v ≡ str t) × (a ≡ assigned t))
    ⊎ (a ≡ mismatch)

assign_ip-Assigns : (k : Bytes) (v : Json) (old : Bytes) → Assigns k v old (assign_ip k v old)
unfolding assign_ip as_string
assign_ip-Assigns k v old = elim (Bool-cases (names k (text "ipAddress"))) [
  | inr other ↦ inl (inl other, inl (rw (assign_ip, other)))
  | inl own ↦ by_value v own
]
  where
    by_value : (x : Json) → names k (text "ipAddress") ≡ true → Assigns k x old (assign_ip k x old)
    by_value null own = inl (inr refl, inr (simp (assign_ip, own, as_string)))
    by_value (str t) own = inr (inl (t, own, refl, simp (assign_ip, own, as_string)))
    by_value (bool b) own = inr (inr (simp (assign_ip, own, as_string)))
    by_value (num n) own = inr (inr (simp (assign_ip, own, as_string)))
    by_value (arr l) own = inr (inr (simp (assign_ip, own, as_string)))
    by_value (obj m) own = inr (inr (simp (assign_ip, own, as_string)))

decode_members-by :
    (k : Bytes) (v : Json) (m : Members) (old : Bytes) (a : Assign Bytes)
    → assign_ip k v old ≡ a
    → decode_members assign_ip false (member k v m) old ≡ elim a [
      | unknown ↦ decode_members assign_ip false m old
      | mismatch ↦ none
      | assigned t ↦ decode_members assign_ip false m t
    ]
unfolding decode_members
decode_members-by k v m old a e = ground arith

decode_members-gives :
    (m : Members) (old ip : Bytes)
    → decode_members assign_ip false m old ≡ some ip
    → Gives m ip ⊎ Lacks m × (ip ≡ old)
decode_members-gives end old ip h = inr (tt, ended (unfold decode_members in h))
  where
    ended : some old ≡ some ip → ip ≡ old
    ended e = cc
decode_members-gives (member k v m) old ip h = elim (assign_ip-Assigns k v old) [
  | inl (passed, inl e) ↦
      later_gives k v m old ip passed
        (decode_members-gives m old ip (sym (decode_members-by k v m old unknown e) ∙ h))
  | inl (passed, inr e) ↦
      later_gives k v m old ip passed
        (decode_members-gives m old ip (sym (decode_members-by k v m old (assigned old) e) ∙ h))
  | inr (inl (t, own, is_text, e)) ↦
      elim (decode_members-gives m t ip (sym (decode_members-by k v m old (assigned t) e) ∙ h)) [
        | inl later ↦ inl (inl later)
        | inr (none_later, same) ↦ inl (inr (own, is_text ∙ ap str (sym same), none_later))
      ]
  | inr (inr e) ↦ let bad = sym (decode_members-by k v m old mismatch e) ∙ h in cc
]

blank_text : (s : Bytes) → s ≡ [] → trim_space s ≡ []
unfolding trim_space
blank_text s e = rw e refl

same_text : (s t : Bytes) → some s ≡ some t → t ≡ s
same_text s t e = cc

AnswersWith-value :
    (body ip : Bytes) (v : Json)
    → whole_value body ≡ some v
    → trim_space ip ≢ []
    → decode_value assign_ip false v [] ≡ some ip
    → AnswersWith body ip
unfolding decode_value
AnswersWith-value body ip (obj m) good filled e = elim (decode_members-gives m [] ip e) [
  | inl gives ↦ (m, good, gives)
  | inr (lacks, blank) ↦ absurd (filled (blank_text ip blank))
]
AnswersWith-value body ip null good filled e = absurd (filled (blank_text ip (same_text [] ip e)))
AnswersWith-value body ip (bool b) good filled e = cc
AnswersWith-value body ip (num n) good filled e = cc
AnswersWith-value body ip (str s) good filled e = cc
AnswersWith-value body ip (arr l) good filled e = cc

pub unmarshal-AnswersWith :
    (body ip : Bytes)
    → unmarshal assign_ip body [] ≡ some ip
    → trim_space ip ≢ []
    → AnswersWith body ip
unfolding unmarshal
unmarshal-AnswersWith body ip h filled = elim (Option-cases (whole_value body)) [
  | inl bad ↦ absurd (ground arith)
  | inr (v, good) ↦ AnswersWith-value body ip v good filled (rw (unmarshal, good) at h)
]
