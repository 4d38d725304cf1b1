-- ===== src/Codec/Bounds.antt =====
-- How many rows a decoder hands over, whatever the input holds.
use f4mp.Base.{
  ℕ, zero, suc, ◌≤◌, ◌<◌, ◌≡◌, refl, subst, ap, some, List, [], ◌∷◌, arith, length, ltb, All,
  Bool-cases, inl, inr,
}
use f4mp.Wire.Reader.{
  PacketReader, R, fail, pr_read_u8, pr_read_u16, pr_read_u32, pr_read_bytes, pr_read_string_u16,
}
use f4mp.Wire.Bounds.{>>=-inversion, done-value, pr_read_string_u16-bound}
use f4mp.Messages.Ui.{
  MsgDialogueChoicesHeader, MsgDialogueChoiceRecord, MsgQuestUpdateHeader, MsgQuestObjectiveRecord,
}
use f4mp.Codec.Rows.{read_rows, read_at_most}
use f4mp.Codec.Ui.{
  read_dialogue_choice, decode_msg_dialogue_choices, read_quest_objective, decode_msg_quest_update,
}

-- Rows that each satisfy `P` do so together, and there are as many as were asked for.
read_rows-All :
    {A : Type 0} (P : A → Type 0) (row : R A)
    → ((r r' : PacketReader) (a : A) → row r ≡ (some a, r') → P a)
    → (count : ℕ) (r r' : PacketReader) (rows : List A) → read_rows row count r ≡ (some rows, r')
    → All P rows × (length rows ≡ count)
unfolding read_rows
read_rows-All P row each zero r r' rows e =
    subst (λ t. All P t × (length t ≡ 0)) (done-value [] rows r r' e) (tt, refl)
read_rows-All P row each (suc count) r r' rows e =
    let (a, r₁, p, q) = >>=-inversion row _ r r' rows e in
    let (rest, r₂, p', q') = >>=-inversion (read_rows row count) _ r₁ r' rows q in
    let (good, size) = read_rows-All P row each count r₁ r₂ rest p' in
    subst (λ t. All P t × (length t ≡ suc count)) (done-value (a ∷ rest) rows r₂ r' q')
      ((each r r₁ a p, good), ap suc size)

limited :
    {A : Type 0} (max count : ℕ) (body : R A) (r r' : PacketReader) (a : A)
    → read_at_most max body count r ≡ (some a, r')
    → (count ≤ max) × (body r ≡ (some a, r'))
unfolding read_at_most fail
limited max count body r r' a e = elim (Bool-cases (ltb max count)) [
  | inl t ↦ absurd (ground arith)
  | inr t ↦ (ground arith, ground arith)
]

-- An array that is read has the rows that its count says, and not more than the receiver has room for.
read_array-All :
    {A : Type 0} (P : A → Type 0) (row : R A)
    → ((r r' : PacketReader) (a : A) → row r ≡ (some a, r') → P a)
    → (max count : ℕ) (r r' : PacketReader) (rows : List A)
    → read_at_most max (read_rows row count) count r ≡ (some rows, r')
    → (count ≤ max) × All P rows × (length rows ≡ count)
read_array-All P row each max count r r' rows e =
    let (room, read) = limited max count (read_rows row count) r r' rows e in
    let (good, size) = read_rows-All P row each count r r' rows read in (room, good, size)

choice_text :
    (r r' : PacketReader) (c : MsgDialogueChoiceRecord × List ℕ)
    → read_dialogue_choice r ≡ (some c, r')
    → length c.1 < 256
unfolding read_dialogue_choice
choice_text r r' c e =
    let (_, r₁, _, e₁) = >>=-inversion pr_read_u32 _ r r' c e in
    let (_, r₂, _, e₂) = >>=-inversion pr_read_u8 _ r₁ r' c e₁ in
    let (_, r₃, _, e₃) = >>=-inversion (pr_read_bytes 3) _ r₂ r' c e₂ in
    let (text, r₄, p, e₄) = >>=-inversion (pr_read_string_u16 256) _ r₃ r' c e₃ in
    subst (λ t. length t.1 < 256) (done-value _ c r₄ r' e₄)
      (pr_read_string_u16-bound 256 r₃ r₄ text p)

-- Choices that are decoded, from whatever bytes, are as many as their header counts and no more than
-- there is room for, and each text fits its array of 256 bytes.
pub decode_msg_dialogue_choices-bound :
    (max_choices : ℕ) (r r' : PacketReader) (h : MsgDialogueChoicesHeader)
    (choices : List (MsgDialogueChoiceRecord × List ℕ))
    → decode_msg_dialogue_choices max_choices r ≡ (some (h, choices), r')
    → (length choices ≡ h.choice_count)
      × (h.choice_count ≤ max_choices)
      × All (λ c. length c.1 < 256) choices
unfolding decode_msg_dialogue_choices
decode_msg_dialogue_choices-bound max_choices r r' h choices e =
    let (_, r₁, _, e₁) = >>=-inversion pr_read_u32 _ r r' (h, choices) e in
    let (count, r₂, _, e₂) = >>=-inversion pr_read_u16 _ r₁ r' (h, choices) e₁ in
    let (_, r₃, _, e₃) = >>=-inversion pr_read_u16 _ r₂ r' (h, choices) e₂ in
    let (rows, r₄, p, e₄) =
      >>=-inversion (read_at_most max_choices (read_rows read_dialogue_choice count) count) _ r₃ r'
        (h, choices) e₃ in
    let (room, texts, size) =
      read_array-All (λ c. length c.1 < 256) read_dialogue_choice choice_text max_choices count r₃
        r₄ rows p in
    subst
      (λ (t : MsgDialogueChoicesHeader × List (MsgDialogueChoiceRecord × List ℕ)).
        (length t.1 ≡ t.0.choice_count)
        × (t.0.choice_count ≤ max_choices)
        × All (λ c. length c.1 < 256) t.1)
      (done-value _ (h, choices) r₄ r' e₄) (size, room, texts)

objective_text :
    (r r' : PacketReader) (c : MsgQuestObjectiveRecord × List ℕ)
    → read_quest_objective r ≡ (some c, r')
    → length c.1 < 256
unfolding read_quest_objective
objective_text r r' c e =
    let (_, r₁, _, e₁) = >>=-inversion pr_read_u32 _ r r' c e in
    let (_, r₂, _, e₂) = >>=-inversion pr_read_u8 _ r₁ r' c e₁ in
    let (_, r₃, _, e₃) = >>=-inversion (pr_read_bytes 3) _ r₂ r' c e₂ in
    let (text, r₄, p, e₄) = >>=-inversion (pr_read_string_u16 256) _ r₃ r' c e₃ in
    subst (λ t. length t.1 < 256) (done-value _ c r₄ r' e₄)
      (pr_read_string_u16-bound 256 r₃ r₄ text p)

-- Objectives that are decoded, from whatever bytes, are as many as their header counts and no more than
-- there is room for, and each text fits its array of 256 bytes.
pub decode_msg_quest_update-bound :
    (max_objectives : ℕ) (r r' : PacketReader) (h : MsgQuestUpdateHeader)
    (objs : List (MsgQuestObjectiveRecord × List ℕ))
    → decode_msg_quest_update max_objectives r ≡ (some (h, objs), r')
    → (length objs ≡ h.objective_count)
      × (h.objective_count ≤ max_objectives)
      × All (λ c. length c.1 < 256) objs
unfolding decode_msg_quest_update
decode_msg_quest_update-bound max_objectives r r' h objs e =
    let (_, r₁, _, e₁) = >>=-inversion pr_read_u32 _ r r' (h, objs) e in
    let (_, r₂, _, e₂) = >>=-inversion pr_read_u16 _ r₁ r' (h, objs) e₁ in
    let (_, r₃, _, e₃) = >>=-inversion pr_read_u8 _ r₂ r' (h, objs) e₂ in
    let (count, r₄, _, e₄) = >>=-inversion pr_read_u8 _ r₃ r' (h, objs) e₃ in
    let (rows, r₅, p, e₅) =
      >>=-inversion (read_at_most max_objectives (read_rows read_quest_objective count) count) _ r₄
        r' (h, objs) e₄ in
    let (room, texts, size) =
      read_array-All (λ c. length c.1 < 256) read_quest_objective objective_text max_objectives
        count r₄ r₅ rows p in
    subst
      (λ (t : MsgQuestUpdateHeader × List (MsgQuestObjectiveRecord × List ℕ)).
        (length t.1 ≡ t.0.objective_count)
        × (t.0.objective_count ≤ max_objectives)
        × All (λ c. length c.1 < 256) t.1)
      (done-value _ (h, objs) r₅ r' e₅) (size, room, texts)
