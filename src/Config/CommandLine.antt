-- ===== src/Config/CommandLine.antt =====
-- package/zebrafish-config/src/cli.rs: the options and commands of the program, as clap fills them
-- in; the options `--quiet` and `--verbose`, which nothing reads, are left out.
use zebrafish.Prelude.{Bool, Option, Text}
use zebrafish.Config.Commands.{Ctx}
use zebrafish.Config.Listing.{ListFormat}

-- The flag is `--bool`.
pub record GetArgs : Type 0 where
  pub key : Text
  pub default : Option Text
  pub as_flag : Bool

pub record SetArgs : Type 0 where
  pub key : Text
  pub value : Text

pub record ListArgs : Type 0 where
  pub listed_section : Option Text
  pub format : ListFormat

pub record AddArgs : Type 0 where
  pub section : Text

pub record RemoveArgs : Type 0 where
  pub key : Text

pub record PathArgs : Type 0 where
  pub system : Bool
  pub machine : Bool

pub record ValidateArgs : Type 0 where
  pub machine : Bool
  pub system : Bool

pub data Command : Type 0 where
  get : GetArgs → Command
  set : SetArgs → Command
  list : ListArgs → Command
  add : AddArgs → Command
  remove : RemoveArgs → Command
  edit : Command
  path : PathArgs → Command
  validate_files : ValidateArgs → Command

pub record Cli : Type 0 where
  pub efi : Bool
  pub efi_dir : Option Text
  pub cli_file : Option Text
  pub command : Command

-- `Ctx::from_cli`.
abbrev pub from_cli : Cli → Ctx
from_cli cli = record { efi_dir = cli.efi_dir; named_file = cli.cli_file; efi = cli.efi }
