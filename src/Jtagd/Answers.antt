-- ===== src/Jtagd/Answers.antt =====
-- The messages that are answered without the chain: what each is answered, and that all the answers of a
-- round go out as one packet.
use jtag_remote_server.Base.{
  ℕ, ◌+◌, ◌^◌, ◌<◌, ◌≡◌, refl, sym, subst, Bool, true, false, not, ◌||◌, none, some, List, [], ◌∷◌,
  ◌++◌, arith, if◌then◌else◌, ◌==◌, length, Bool-cases, ==_iff, inl, inr,
}
use jtag_remote_server.World.{Run, ◌>>=◌}
use jtag_remote_server.Jtag.{Driver}
use jtag_remote_server.Jtagd.{Output, Message, Server, replying}
use jtag_remote_server.Jtagd.Messages.{encode_message}
use jtag_remote_server.Jtagd.Sending.{be_bytes, add_int, end_response}
use jtag_remote_server.Jtagd.Gathered.{Holds, add_int-Appends, add_string-Appends}
use jtag_remote_server.Jtagd.Responses.{
  response, Replies, append-Ends, end_response-Ends, add_response-Replies,
}
use jtag_remote_server.Jtagd.Handlers.{respond, respond_int, get_version_info, get_defined_devices}
use jtag_remote_server.Jtagd.Serve.{handled, handle}

-- The commands that are answered without the chain, and without a packet of their own.
abbrev pub is_plain : ℕ → Bool
is_plain c =
    not (c == 0x80 || c == 0xa5 || c == 0xa8 || c == 0xc1 || c == 0xc6 || c == 0xc8 || c == 0xca)

abbrev pub is_known : ℕ → Bool
is_known c =
    not (is_plain c)
    || c == 0x83
    || c == 0x84
    || c == 0xa2
    || c == 0xa3
    || c == 0xaa
    || c == 0xab
    || c == 0xc0
    || c == 0xc2
    || c == 0xfe

-- A version with two strings, three numbers, a number, nothing but success, or 126, "unimplemented".
abbrev pub plain_answer : ℕ → Message
plain_answer c =
    if c == 0x83
    then response 0
        (3 ∷ b'1' ∷ b'.' ∷ b'0' ∷ 0 ∷ 0 ∷ 0 ∷ 0 ∷ 5 ∷ b'j' ∷ b't' ∷ b'a' ∷ b'g' ∷ b'd' ∷ [])
    else if c == 0x84
    then response 0 (0 ∷ 0 ∷ 0 ∷ 1 ∷ 0 ∷ 0 ∷ 0 ∷ 0 ∷ 0 ∷ 0 ∷ 0 ∷ 0 ∷ [])
    else if c == 0xa2
    then response 0 []
    else if c == 0xa3
    then response 0 []
    else if c == 0xaa
    then response 0 []
    else if c == 0xab
    then response 0 (0 ∷ 0 ∷ 0 ∷ 0 ∷ [])
    else if c == 0xc0
    then response 0 []
    else if c == 0xc2
    then response 0 []
    else if c == 0xfe
    then response 0 (0 ∷ 0 ∷ 0 ∷ 1 ∷ [])
    else response 126 []

respond-Replies : (resp : ℕ) → resp < 2 ^ 8 → Replies (respond resp) (response resp [])
unfolding respond
respond-Replies resp byte = add_response-Replies resp end_response [] byte end_response-Ends

respond_int-Replies : (value : ℕ) → Replies (respond_int value) (response 0 (be_bytes value ++ []))
unfolding respond_int
respond_int-Replies value = add_response-Replies 0 _ (be_bytes value ++ []) (omega arith) (
    append-Ends (add_int value) end_response (be_bytes value) [] (add_int-Appends value)
      end_response-Ends)

get_version_info-Replies : Replies get_version_info (plain_answer 0x83)
unfolding get_version_info be_bytes
get_version_info-Replies = add_response-Replies 0 _ _ (omega arith) (
    append-Ends _ _ (3 ∷ b'1' ∷ b'.' ∷ b'0' ∷ []) _ (add_string-Appends (b'1' ∷ b'.' ∷ b'0' ∷ [])) (
      append-Ends (add_int 0) _ (be_bytes 0) _ (add_int-Appends 0) (
        append-Ends _ end_response (5 ∷ b'j' ∷ b't' ∷ b'a' ∷ b'g' ∷ b'd' ∷ []) []
          (add_string-Appends (b'j' ∷ b't' ∷ b'a' ∷ b'g' ∷ b'd' ∷ [])) end_response-Ends)))

get_defined_devices-Replies : Replies get_defined_devices (plain_answer 0x84)
unfolding get_defined_devices be_bytes
get_defined_devices-Replies = add_response-Replies 0 _ _ (omega arith) (
    append-Ends (add_int 1) _ (be_bytes 1) _ (add_int-Appends 1) (
      append-Ends (add_int 0) _ (be_bytes 0) _ (add_int-Appends 0) (
        append-Ends (add_int 0) end_response (be_bytes 0) [] (add_int-Appends 0)
          end_response-Ends)))

-- The message is handled, and only the reply has changed: it has the answer appended.
abbrev pub Answers : Run Server Bool → Message → Type 0
Answers m answer =
    (s : Server) (content : List ℕ)
    → Holds s.output none content
    → 6 + length content + length answer.body < 2 ^ 8
    → (o' : Output) × (m s ≡ some (true, record s { output = o' }))
      × Holds o' none (content ++ encode_message answer)

handled-Answers :
    (m : Run Output (Unit {0})) (answer : Message)
    → Replies m answer
    → Answers (handled (replying m)) answer
handled-Answers m answer replies s content h room =
    let (o', e, h') = replies s.output content h room in (o', rw (◌>>=◌, e) refl, h')

not_0x80 : (c : ℕ) → is_plain c ≡ true → (c == 0x80) ≡ false
not_0x80 c h = ground (arith, h)

not_0xa5 : (c : ℕ) → is_plain c ≡ true → (c == 0xa5) ≡ false
not_0xa5 c h = ground (arith, h)

not_0xa8 : (c : ℕ) → is_plain c ≡ true → (c == 0xa8) ≡ false
not_0xa8 c h = ground (arith, h)

not_0xc1 : (c : ℕ) → is_plain c ≡ true → (c == 0xc1) ≡ false
not_0xc1 c h = ground (arith, h)

not_0xc6 : (c : ℕ) → is_plain c ≡ true → (c == 0xc6) ≡ false
not_0xc6 c h = ground (arith, h)

not_0xc8 : (c : ℕ) → is_plain c ≡ true → (c == 0xc8) ≡ false
not_0xc8 c h = ground (arith, h)

not_0xca : (c : ℕ) → is_plain c ≡ true → (c == 0xca) ≡ false
not_0xca c h = ground (arith, h)

module _ (d : Driver) (junk junk2 : List ℕ) where
  -- A command that is known.
  known :
      (msg : Message) (k : ℕ)
      → (msg.command == k) ≡ true
      → Answers (handle d junk junk2 (record { command = k; body = msg.body })) (plain_answer k)
      → Answers (handle d junk junk2 msg) (plain_answer msg.command)
  known msg k e proof =
      subst
        (λ c.
          Answers (handle d junk junk2 (record { command = c; body = msg.body })) (plain_answer c))
        (sym ((==_iff msg.command k).0 e)) proof

  success : Answers (handled (replying (respond 0))) (response 0 [])
  success = handled-Answers (respond 0) (response 0 []) (respond-Replies 0 (omega arith))

  -- A command that is not in the list.
  unknown :
      (msg : Message)
      → is_plain msg.command ≡ true
      → (msg.command == 0x83) ≡ false
      → (msg.command == 0x84) ≡ false
      → (msg.command == 0xa2) ≡ false
      → (msg.command == 0xa3) ≡ false
      → (msg.command == 0xaa) ≡ false
      → (msg.command == 0xab) ≡ false
      → (msg.command == 0xc0) ≡ false
      → (msg.command == 0xc2) ≡ false
      → (msg.command == 0xfe) ≡ false
      → Answers (handle d junk junk2 msg) (plain_answer msg.command)
  unfolding handle
  unknown msg plain e83 e84 ea2 ea3 eaa eab ec0 ec2 efe =
      rw
        (
          not_0x80 msg.command plain,
          e83,
          e84,
          ea2,
          ea3,
          not_0xa5 msg.command plain,
          not_0xa8 msg.command plain,
          eaa,
          eab,
          ec0,
          not_0xc1 msg.command plain,
          ec2,
          not_0xc6 msg.command plain,
          not_0xc8 msg.command plain,
          not_0xca msg.command plain,
          efe,
        )
        (handled-Answers (respond 126) (response 126 []) (respond-Replies 126 (omega arith)))

  -- A message that needs neither the chain nor a packet of its own is handled, and its answer appended
  -- to what is gathered, if there is room.
  pub handle-Answers :
      (msg : Message)
      → is_plain msg.command ≡ true
      → Answers (handle d junk junk2 msg) (plain_answer msg.command)
  unfolding handle respond_int
  handle-Answers msg plain = elim (Bool-cases (msg.command == 0x83)) [
    | inl e ↦ known msg 0x83 e (handled-Answers _ (plain_answer 0x83) get_version_info-Replies)
    | inr e83 ↦ elim (Bool-cases (msg.command == 0x84)) [
      | inl e ↦ known msg 0x84 e (handled-Answers _ (plain_answer 0x84) get_defined_devices-Replies)
      | inr e84 ↦ elim (Bool-cases (msg.command == 0xa2)) [
        | inl e ↦ known msg 0xa2 e success
        | inr ea2 ↦ elim (Bool-cases (msg.command == 0xa3)) [
          | inl e ↦ known msg 0xa3 e success
          | inr ea3 ↦ elim (Bool-cases (msg.command == 0xaa)) [
            | inl e ↦ known msg 0xaa e success
            | inr eaa ↦ elim (Bool-cases (msg.command == 0xab)) [
              | inl e ↦
                  known msg 0xab e (handled-Answers _ (plain_answer 0xab) (respond_int-Replies 0))
              | inr eab ↦ elim (Bool-cases (msg.command == 0xc0)) [
                | inl e ↦ known msg 0xc0 e success
                | inr ec0 ↦ elim (Bool-cases (msg.command == 0xc2)) [
                  | inl e ↦ known msg 0xc2 e success
                  | inr ec2 ↦ elim (Bool-cases (msg.command == 0xfe)) [
                    | inl e ↦
                        known msg 0xfe e
                          (handled-Answers _ (plain_answer 0xfe) (respond_int-Replies 1))
                    | inr efe ↦ unknown msg plain e83 e84 ea2 ea3 eaa eab ec0 ec2 efe
                  ]
                ]
              ]
            ]
          ]
        ]
      ]
    ]
  ]

  -- A command that the program does not know is handled, and answered with 126, `AJI_UNIMPLEMENTED`, and
  -- no more, if the reply has room for it.
  pub handle_unknown :
      (msg : Message) (s : Server) (content : List ℕ)
      → is_known msg.command ≡ false
      → Holds s.output none content
      → 6 + length content < 2 ^ 8
      → (o' : Output) × (handle d junk junk2 msg s ≡ some (true, record s { output = o' }))
        × Holds o' none (content ++ (126 ∷ 0 ∷ 0 ∷ 4 ∷ []))
  handle_unknown msg s content new h room =
      subst (Answers (handle d junk junk2 msg)) (unlisted msg.command new)
        (handle-Answers msg (plain_of msg.command new)) s content h (omega (arith, room))
    where
      plain_of : (c : ℕ) → is_known c ≡ false → is_plain c ≡ true
      plain_of c new = ground (arith, new)

      unlisted : (c : ℕ) → is_known c ≡ false → plain_answer c ≡ response 126 []
      unlisted c new = ground (arith, new)
