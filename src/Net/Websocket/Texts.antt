-- ===== src/Net/Websocket/Texts.antt =====
-- uvio/net/websocket: the texts of the handshake.
use uvio.Prelude.{ℕ, List, [], ◌∷◌}

-- "websocket".
abbrev pub websocket_text : List ℕ
websocket_text = 0x77 ∷ 0x65 ∷ 0x62 ∷ 0x73 ∷ 0x6F ∷ 0x63 ∷ 0x6B ∷ 0x65 ∷ 0x74 ∷ []

-- "Connection".
abbrev pub connection : List ℕ
connection = 0x43 ∷ 0x6F ∷ 0x6E ∷ 0x6E ∷ 0x65 ∷ 0x63 ∷ 0x74 ∷ 0x69 ∷ 0x6F ∷ 0x6E ∷ []

-- "Sec-WebSocket-Key".
abbrev pub security_key : List ℕ
security_key =
    0x53 ∷ 0x65 ∷ 0x63 ∷ 0x2D ∷ 0x57 ∷ 0x65 ∷ 0x62 ∷ 0x53 ∷ 0x6F ∷ 0x63 ∷ 0x6B ∷ 0x65 ∷ 0x74 ∷ 0x2D
    ∷ 0x4B ∷ 0x65 ∷ 0x79 ∷ []

-- "Sec-webSocket-Key".
abbrev pub asked_key : List ℕ
asked_key =
    0x53 ∷ 0x65 ∷ 0x63 ∷ 0x2D ∷ 0x77 ∷ 0x65 ∷ 0x62 ∷ 0x53 ∷ 0x6F ∷ 0x63 ∷ 0x6B ∷ 0x65 ∷ 0x74 ∷ 0x2D
    ∷ 0x4B ∷ 0x65 ∷ 0x79 ∷ []

-- "Sec-WebSocket-Version".
abbrev pub version_name : List ℕ
version_name =
    0x53 ∷ 0x65 ∷ 0x63 ∷ 0x2D ∷ 0x57 ∷ 0x65 ∷ 0x62 ∷ 0x53 ∷ 0x6F ∷ 0x63 ∷ 0x6B ∷ 0x65 ∷ 0x74 ∷ 0x2D
    ∷ 0x56 ∷ 0x65 ∷ 0x72 ∷ 0x73 ∷ 0x69 ∷ 0x6F ∷ 0x6E ∷ []

-- "13".
abbrev pub version_13 : List ℕ
version_13 = 0x31 ∷ 0x33 ∷ []

-- "Sec-WebSocket-Accept".
abbrev pub accept_name : List ℕ
accept_name =
    0x53 ∷ 0x65 ∷ 0x63 ∷ 0x2D ∷ 0x57 ∷ 0x65 ∷ 0x62 ∷ 0x53 ∷ 0x6F ∷ 0x63 ∷ 0x6B ∷ 0x65 ∷ 0x74 ∷ 0x2D
    ∷ 0x41 ∷ 0x63 ∷ 0x63 ∷ 0x65 ∷ 0x70 ∷ 0x74 ∷ []

-- "User-Agent".
abbrev pub user_agent : List ℕ
user_agent = 0x55 ∷ 0x73 ∷ 0x65 ∷ 0x72 ∷ 0x2D ∷ 0x41 ∷ 0x67 ∷ 0x65 ∷ 0x6E ∷ 0x74 ∷ []

-- "UVIO/0.0.1".
abbrev pub agent : List ℕ
agent = 0x55 ∷ 0x56 ∷ 0x49 ∷ 0x4F ∷ 0x2F ∷ 0x30 ∷ 0x2E ∷ 0x30 ∷ 0x2E ∷ 0x31 ∷ []

-- "GET".
abbrev pub get_text : List ℕ
get_text = 0x47 ∷ 0x45 ∷ 0x54 ∷ []

-- "/".
abbrev pub root_uri : List ℕ
root_uri = 0x2F ∷ []

-- "8AVhXO1zSlflZw1LfElVnw==".
abbrev pub client_key : List ℕ
client_key =
    0x38 ∷ 0x41 ∷ 0x56 ∷ 0x68 ∷ 0x58 ∷ 0x4F ∷ 0x31 ∷ 0x7A ∷ 0x53 ∷ 0x6C ∷ 0x66 ∷ 0x6C ∷ 0x5A ∷ 0x77
    ∷ 0x31 ∷ 0x4C ∷ 0x66 ∷ 0x45 ∷ 0x6C ∷ 0x56 ∷ 0x6E ∷ 0x77 ∷ 0x3D ∷ 0x3D ∷ []

-- "258EAFA5-E914-47DA-95CA-C5AB0DC85B11".
abbrev pub guid : List ℕ
guid =
    0x32 ∷ 0x35 ∷ 0x38 ∷ 0x45 ∷ 0x41 ∷ 0x46 ∷ 0x41 ∷ 0x35 ∷ 0x2D ∷ 0x45 ∷ 0x39 ∷ 0x31 ∷ 0x34 ∷ 0x2D
    ∷ 0x34 ∷ 0x37 ∷ 0x44 ∷ 0x41 ∷ 0x2D ∷ 0x39 ∷ 0x35 ∷ 0x43 ∷ 0x41 ∷ 0x2D ∷ 0x43 ∷ 0x35 ∷ 0x41
    ∷ 0x42 ∷ 0x30 ∷ 0x44 ∷ 0x43 ∷ 0x38 ∷ 0x35 ∷ 0x42 ∷ 0x31 ∷ 0x31 ∷ []
