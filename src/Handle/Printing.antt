-- ===== src/Handle/Printing.antt =====
-- The two calls of printf at the end of `CHandle::Process` of Handle.cpp.
use http_decoder.Base.{◌≡◌, ◌⊎◌, inl, inr, refl, ok, fault, unterminated, print_string_cases}
use http_decoder.Buffer.{get_buf}
use http_decoder.Handle.{print_buffers}
use http_decoder.Session.Reset.{HasBuffers}
use http_decoder.Session.{CSession}

-- On valid buffers the printing is done, or finds no NUL byte in a block.
pub print_buffers_cases :
    (s : CSession)
    → HasBuffers s
    → (print_buffers s ≡ ok tt) ⊎ (print_buffers s ≡ fault unterminated)
unfolding print_buffers get_buf
print_buffers_cases s k =
    let asked = k.req_valid.block in
    let answered = k.rsp_valid.block in
    elim (print_string_cases k.req_block) [
      | inl ends ↦ elim (print_string_cases k.rsp_block) [
        | inl ends' ↦ inl (rw (print_buffers, asked, ends) (rw (answered, ends') refl))
        | inr runs_on ↦ inr (rw (print_buffers, asked, ends) (rw (answered, runs_on) refl))
      ]
      | inr runs_on ↦ inr (rw (print_buffers, asked, runs_on) refl)
    ]
