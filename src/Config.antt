-- ===== src/Config.antt =====
-- The configuration system, source/config.c: values and commands, the parser, environments and the
-- execution of command lists. A string is the list of its bytes; the copies that value_copy and
-- its relatives make are the values themselves, since a value here has no identity.
pub mod Reader
pub mod Parser
pub mod Printer
pub mod Environ
pub mod Substitute
pub mod Exec
mod Tests
use kboot.Base.{ℕ, Bool}
use kboot.CString.{Bytes}

-- The lists that values hold are types of their own: value_list_t and command_list_t.
mutual
  pub data Value : Type 0 where
    integer : ℕ → Value
    boolean : Bool → Value
    string : Bytes → Value
    list : Values → Value
    commands : Commands → Value
    reference : Bytes → Value

  pub data Values : Type 0 where
    nil : Values
    cons : Value → Values → Values

  -- The name and the arguments of a command, and the commands after it.
  pub data Commands : Type 0 where
    end : Commands
    command : Bytes → Values → Commands → Commands
