-- ===== src/Tests/Setting.antt =====
-- An allocator, conversions and an exchange that the tests share.
use http_decoder.Base.{
  ℕ, ◌+◌, ◌-◌, ◌<◌, ◌≡◌, refl, inl, arith, [], ◌++◌, none, some, if◌then◌else◌, Bytes, Heap, Sized,
  codes, equal, decimal, length, length-append, replicate, length-replicate,
}
use http_decoder.Buffer.{CBuffer, buffer_size}
use http_decoder.Buffer.Blocks.{IsValid}
use http_decoder.Buffer.Growth.{IsKept}
use http_decoder.HttpParse.{LexicalCast}
use http_decoder.Public.{CResult}
use http_decoder.Session.{CSession}
use http_decoder.Session.Reset.{HasBuffers}

-- Memory is given whatever the size, and is zero.
abbrev pub zeroed : Heap
zeroed n = some (replicate n 0)

pub zeroed-Sized : Sized zeroed
zeroed-Sized n m e = let same : replicate n 0 ≡ m = cc in rw same at (length-replicate {A = ℕ} n 0)

-- Versions are kept ten times too large, and the status 200 is the only number.
abbrev pub casts : LexicalCast
casts = record {
  Float = ℕ;
  to_float = λ t. if equal t (codes "1.1") then some 11 else none;
  tenfold = λ x. some x;
  to_uint32 = λ t. if equal t (codes "200") then some 200 else none;
  of_uint16 = λ n. some (decimal n);
}

-- A new buffer after an append of `text`.
abbrev pub block_of : Bytes → Bytes
block_of text = text ++ replicate (buffer_size - length text) 0

abbrev pub filled : Bytes → CBuffer
filled text = record {
  len = length text;
  free = buffer_size - length text;
  buf = some (block_of text);
}

pub filled-IsValid :
    (text : Bytes) → length text < buffer_size → IsValid (filled text) (block_of text)
filled-IsValid text h = record {
  block = refl;
  fits = omega (
    arith,
    length-append text (replicate (buffer_size - length text) 0),
    length-replicate {A = ℕ} (buffer_size - length text) 0,
  );
  spare = omega arith;
  bounded = omega arith;
  roomy = omega arith;
}

pub length-block_of :
    (text : Bytes) → length text + (buffer_size - length text) ≡ length (block_of text)
length-block_of text = omega (
  arith,
  length-append text (replicate (buffer_size - length text) 0),
  length-replicate {A = ℕ} (buffer_size - length text) 0,
)

pub filled-IsKept : (text : Bytes) → length text < buffer_size → IsKept buffer_size (filled text)
filled-IsKept text h = record {
  block = block_of text;
  valid = filled-IsValid text h;
  bounded = omega (arith, length-block_of text);
  shape = inl (omega arith);
}

abbrev pub request : Bytes
request = codes "GET /a HTTP/1.1\nHost:b\n\n"

abbrev pub response : Bytes
response = codes "HTTP/1.1 200 OK\r\nServer:c\n\r\nhello"

abbrev pub blank_result : CResult
blank_result = record {
  request_time_stamp = 0;
  response_time_stamp = 0;
  method = 0;
  version = 0;
  ret_code = 0;
  url = [];
  ret_note = [];
  request_header = [];
  response_header = [];
  request_data = [];
  response_data = [];
}

abbrev pub session_with : Bytes → Bytes → CSession
session_with q p = record {
  server_ip = 0x0a000001;
  client_ip = 0x0a000002;
  server_port = 80;
  client_port = 1025;
  server_mac = 0;
  client_mac = 0;
  created_time = 0;
  refresh_time = 0;
  seq_no = 0;
  ack_seq_no = 0;
  protocol = 6;
  req_buf = filled q;
  rsp_buf = filled p;
  result = blank_result;
}

abbrev pub exchange : CSession
exchange = session_with request response

abbrev pub session-HasBuffers :
    (q p : Bytes) → length q < buffer_size → length p < buffer_size → HasBuffers (session_with q p)
session-HasBuffers q p h g = record {
  req_block = block_of q;
  rsp_block = block_of p;
  req_valid = filled-IsValid q h;
  rsp_valid = filled-IsValid p g;
}
