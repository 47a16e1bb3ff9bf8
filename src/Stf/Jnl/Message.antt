-- ===== src/Stf/Jnl/Message.antt =====
-- jnl_vformat_message_ and jnl_format_message_ of libjnl.c, and the macros of jnl_proto.h that call
-- the latter with their index.
pub mod Laws
use zfstest.Prelude.{ℕ, ◌-◌, List, [], ◌∷◌, ◌++◌, ◌==◌, if◌then◌else◌, take, Option, none, some}
use zfstest.Hashtable.Data.{Ptr, null, Key}
use zfstest.Stf.Number.{Text, codes}
use zfstest.Stf.Results.{name_at}
use zfstest.Stf.Jnl.Log.{format_size}
use zfstest.Stf.Jnl.Buffers.{State, Memory, Resize, buffer_fetch}

abbrev pub message_title : List Text
message_title = codes "Operation" ∷ codes "Expected" ∷ codes "Error" ∷ codes "Action" ∷ []

-- All four buffers have this size.
abbrev pub message_size : ℕ
message_size = 1024

-- The buffers of the threads, and what stands in each buffer.
pub record Messages : Type 0 where
  pub buffers : State
  pub text : Ptr → Text

abbrev pub put_text : Ptr → Text → (Ptr → Text) → Ptr → Text
put_text p t text q = if q == p then t else text q

abbrev pub title_format : ℕ → Text → Text
title_format index format =
    take (format_size - 1) (name_at message_title index ++ (codes ":\n- " ++ format))

-- A message, or NULL behind a call of jnl_internal_error; `none` if the fuel of the table ran out.
abbrev pub Formatted : Type 0
Formatted = Option (Ptr × Messages)

unfoldable pub write_message : Ptr → State → (Ptr → Text) → Option Text → Formatted
write_message p b text none = some (null, record { buffers = b; text = text })
write_message p b text (some t) =
    some (p, record { buffers = b; text = put_text p (take (message_size - 1) t) text })

unfoldable pub fill_buffer : Option Text → (Ptr → Text) → Option (Ptr × State) → Formatted
unfolding write_message
fill_buffer expanded text none = none
fill_buffer expanded text (some (p, b)) =
    if p == null
    then some (null, record { buffers = b; text = text })
    else write_message p b text expanded

-- `expand` is vsnprintf with the arguments of the call, without a limit; `none` if it fails.
unfoldable pub vformat_message :
    ℕ → Resize → Memory → Key → (Text → Option Text) → ℕ → Text → Messages → Formatted
unfolding fill_buffer
vformat_message fuel resize memory thread expand index format m =
    fill_buffer (expand (title_format index format)) m.text
      (buffer_fetch fuel resize memory thread index m.buffers)

-- jnl_format_message_, which makes a list of its arguments
abbrev pub format_message :
    ℕ → Resize → Memory → Key → (Text → Option Text) → ℕ → Text → Messages → Formatted
format_message = vformat_message

-- The macros for the four kinds of message.
module _ (fuel : ℕ) (resize : Resize) (memory : Memory) (thread : Key)
    (expand : Text → Option Text) where
  abbrev pub jnl_operation : Text → Messages → Formatted
  jnl_operation = format_message fuel resize memory thread expand 0

  abbrev pub jnl_expected : Text → Messages → Formatted
  jnl_expected = format_message fuel resize memory thread expand 1

  abbrev pub jnl_error : Text → Messages → Formatted
  jnl_error = format_message fuel resize memory thread expand 2

  abbrev pub jnl_action : Text → Messages → Formatted
  jnl_action = format_message fuel resize memory thread expand 3
