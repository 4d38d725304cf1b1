-- ===== src/Codec/Examples.antt =====
-- Messages that are sent and read back.
use f4mp.Base.{
  ℕ, ◌≡◌, ◌≤◌, ◌<◌, refl, some, none, Option, List, [], ◌∷◌, ◌++◌, arith, length, map, All,
}
use f4mp.Wire.Codes.{Codes, reader_at}
use f4mp.Messages.Types.{Vec3f, Rot3f}
use f4mp.Messages.Header.{PacketHeader}
use f4mp.Messages.Control.{MsgHello}
use f4mp.Messages.Player.{MsgPlayerState}
use f4mp.Messages.Combat.{MsgFireIntent}
use f4mp.Messages.Ui.{
  MsgDialogueChoicesHeader, MsgDialogueChoiceRecord, MsgQuestUpdateHeader, MsgQuestObjectiveRecord,
}
use f4mp.Codec.Header.{encode_packet_header, decode_packet_header}
use f4mp.Codec.Control.{encode_msg_hello, decode_msg_hello}
use f4mp.Codec.Player.{encode_msg_player_state, decode_msg_player_state}
use f4mp.Codec.Combat.{encode_msg_fire_intent, decode_msg_fire_intent}
use f4mp.Codec.Ui.{
  encode_msg_dialogue_choices, decode_msg_dialogue_choices, encode_msg_quest_update,
  decode_msg_quest_update,
}
use f4mp.Codec.Header.Agree.{packet_header-Codes}
use f4mp.Codec.Control.Agree.{msg_hello-Codes}
use f4mp.Codec.Player.Agree.{msg_player_state-Codes}
use f4mp.Codec.Combat.Agree.{msg_fire_intent-Codes}
use f4mp.Codec.Ui.Agree.{msg_dialogue_choices-Codes, msg_quest_update-Codes, with_text}
use f4mp.Codec.Bounds.{decode_msg_dialogue_choices-bound, decode_msg_quest_update-bound}

abbrev header : PacketHeader
header = record {
  magic = 0x504d_3446;
  version = 1;
  flags = 0;
  session_id = 7;
  sequence = 300;
  ack = 0;
  ack_bits = 0;
  message_count = 1;
  reserved = 0 ∷ 0 ∷ 0 ∷ [];
}

packet_header-Codes_example : Codes (encode_packet_header header) decode_packet_header header 28
packet_header-Codes_example = packet_header-Codes header (record {
  magic = omega arith;
  version = omega arith;
  flags = omega arith;
  session_id = omega arith;
  sequence = omega arith;
  ack = omega arith;
  ack_bits = omega arith;
  message_count = omega arith;
  reserved = refl;
})

abbrev hello : MsgHello
hello = record { build_hash = 1234; capabilities = 3 }

msg_hello-Codes_example :
    Codes
      (encode_msg_hello hello (65 ∷ 66 ∷ []) (80 ∷ []))
      (decode_msg_hello 65 65)
      (hello, 65 ∷ 66 ∷ [], 80 ∷ [])
      15
msg_hello-Codes_example =
    msg_hello-Codes hello (65 ∷ 66 ∷ []) (80 ∷ []) 65 65
      (record { build_hash = omega arith; capabilities = omega arith })
      (omega arith, (omega arith, tt)) (omega arith, tt) (omega arith) (omega arith) (omega arith)
      (omega arith)

abbrev origin : Vec3f
origin = record { x = 0x3f80_0000; y = 0; z = 0x4480_0000 }

abbrev upright : Rot3f
upright = record { pitch = 0; yaw = 0x3f80_0000; roll = 0 }

abbrev state : MsgPlayerState
state = record {
  player_id = 2;
  reserved = 0;
  position = origin;
  rotation = upright;
  velocity = origin;
  stance = 1;
  reserved2 = 0 ∷ 0 ∷ 0 ∷ [];
  anim_state = 9;
  reserved3 = 0;
  equipped_form_id = 0xffff_ffff;
  state_sequence = 5;
  observed_tick = 50;
}

msg_player_state-Codes_example :
    Codes (encode_msg_player_state state) decode_msg_player_state state 60
msg_player_state-Codes_example = msg_player_state-Codes state (record {
  player_id = omega arith;
  reserved = omega arith;
  position = record { x = omega arith; y = omega arith; z = omega arith };
  rotation = record { pitch = omega arith; yaw = omega arith; roll = omega arith };
  velocity = record { x = omega arith; y = omega arith; z = omega arith };
  stance = omega arith;
  reserved2 = refl;
  anim_state = omega arith;
  reserved3 = omega arith;
  equipped_form_id = omega arith;
  state_sequence = omega arith;
  observed_tick = omega arith;
})

abbrev fire : MsgFireIntent
fire = record {
  player_id = 2;
  reserved0 = 0;
  weapon_form_id = 17;
  origin = origin;
  direction = origin;
  mode = 1;
  reserved1 = 0 ∷ 0 ∷ 0 ∷ [];
  fire_flags = 4;
}

msg_fire_intent-Codes_example : Codes (encode_msg_fire_intent fire) decode_msg_fire_intent fire 40
msg_fire_intent-Codes_example = msg_fire_intent-Codes fire (record {
  player_id = omega arith;
  reserved0 = omega arith;
  weapon_form_id = omega arith;
  origin = record { x = omega arith; y = omega arith; z = omega arith };
  direction = record { x = omega arith; y = omega arith; z = omega arith };
  mode = omega arith;
  reserved1 = refl;
  fire_flags = omega arith;
})

abbrev choices : List (MsgDialogueChoiceRecord × Option (List ℕ))
choices =
    (record { choice_id = 1; enabled = 1; reserved0 = 0 ∷ 0 ∷ 0 ∷ [] }, some (89 ∷ 101 ∷ []))
    ∷ (record { choice_id = 2; enabled = 0; reserved0 = 0 ∷ 0 ∷ 0 ∷ [] }, none)
    ∷ []

abbrev choices_header : MsgDialogueChoicesHeader
choices_header = record { dialogue_id = 5; choice_count = 2; reserved0 = 0 }

choices_coded :
    Codes
      (encode_msg_dialogue_choices choices_header choices)
      (decode_msg_dialogue_choices 12)
      (choices_header, map with_text choices)
      30
choices_coded =
    msg_dialogue_choices-Codes choices_header choices 12
      (record { dialogue_id = omega arith; choice_count = omega arith; reserved0 = omega arith })
      refl (omega arith)
      (
        (
          record { choice_id = omega arith; enabled = omega arith; reserved0 = refl },
          ((omega arith, (omega arith, tt)), omega arith, omega arith),
        ),
        (
          (
            record { choice_id = omega arith; enabled = omega arith; reserved0 = refl },
            (tt, omega arith, omega arith),
          ),
          tt,
        ),
      )

msg_dialogue_choices-Codes_example :
    Codes
      (encode_msg_dialogue_choices choices_header choices)
      (decode_msg_dialogue_choices 12)
      (choices_header, map with_text choices)
      30
msg_dialogue_choices-Codes_example =
    msg_dialogue_choices-Codes choices_header choices 12
      (record { dialogue_id = omega arith; choice_count = omega arith; reserved0 = omega arith })
      refl (omega arith)
      (
        (
          record { choice_id = omega arith; enabled = omega arith; reserved0 = refl },
          ((omega arith, (omega arith, tt)), omega arith, omega arith),
        ),
        (
          (
            record { choice_id = omega arith; enabled = omega arith; reserved0 = refl },
            (tt, omega arith, omega arith),
          ),
          tt,
        ),
      )

decode_msg_dialogue_choices-bound_example :
    (length (map with_text choices) ≡ 2)
    × (2 ≤ 12)
    × All (λ c. length c.1 < 256) (map with_text choices)
decode_msg_dialogue_choices-bound_example =
    decode_msg_dialogue_choices-bound 12 (reader_at [] (choices_coded.bytes ++ []))
      (reader_at ([] ++ choices_coded.bytes) []) choices_header (map with_text choices)
      (choices_coded.reads.takes [] [])

abbrev objectives : List (MsgQuestObjectiveRecord × Option (List ℕ))
objectives =
    (record { objective_id = 1; state = 1; reserved0 = 0 ∷ 0 ∷ 0 ∷ [] }, some (71 ∷ [])) ∷ []

abbrev quest_header : MsgQuestUpdateHeader
quest_header = record { quest_id = 9; stage = 20; tracked = 1; objective_count = 1 }

objectives_coded :
    Codes
      (encode_msg_quest_update quest_header objectives)
      (decode_msg_quest_update 16)
      (quest_header, map with_text objectives)
      19
objectives_coded =
    msg_quest_update-Codes quest_header objectives 16
      (record {
        quest_id = omega arith;
        stage = omega arith;
        tracked = omega arith;
        objective_count = omega arith;
      })
      refl (omega arith)
      (
        (
          record { objective_id = omega arith; state = omega arith; reserved0 = refl },
          ((omega arith, tt), omega arith, omega arith),
        ),
        tt,
      )

msg_quest_update-Codes_example :
    Codes
      (encode_msg_quest_update quest_header objectives)
      (decode_msg_quest_update 16)
      (quest_header, map with_text objectives)
      19
msg_quest_update-Codes_example =
    msg_quest_update-Codes quest_header objectives 16
      (record {
        quest_id = omega arith;
        stage = omega arith;
        tracked = omega arith;
        objective_count = omega arith;
      })
      refl (omega arith)
      (
        (
          record { objective_id = omega arith; state = omega arith; reserved0 = refl },
          ((omega arith, tt), omega arith, omega arith),
        ),
        tt,
      )

decode_msg_quest_update-bound_example :
    (length (map with_text objectives) ≡ 1)
    × (1 ≤ 16)
    × All (λ c. length c.1 < 256) (map with_text objectives)
decode_msg_quest_update-bound_example =
    decode_msg_quest_update-bound 16 (reader_at [] (objectives_coded.bytes ++ []))
      (reader_at ([] ++ objectives_coded.bytes) []) quest_header (map with_text objectives)
      (objectives_coded.reads.takes [] [])
