-- ===== src/Input/Keymap.antt =====
-- host/src/input/keymap.rs: the keys of the browser, by their names, and the codes that the host's
-- system gives them. The two tables are those of macOS and of Windows.
use Prim.Native.Nat.{bit_and}
use rcdesk.Common.{
  ℕ, String, Option, none, Bool, true, false, [], ◌∷◌, if◌then◌else◌, ◌==◌, string_test, nat_test,
}
use rcdesk.Assoc.{Assoc, get}

abbrev pub macos_keys : Assoc String ℕ
macos_keys =
    ("KeyA", 0x00)
    ∷ ("KeyS", 0x01)
    ∷ ("KeyD", 0x02)
    ∷ ("KeyF", 0x03)
    ∷ ("KeyH", 0x04)
    ∷ ("KeyG", 0x05)
    ∷ ("KeyZ", 0x06)
    ∷ ("KeyX", 0x07)
    ∷ ("KeyC", 0x08)
    ∷ ("KeyV", 0x09)
    ∷ ("IntlBackslash", 0x0a)
    ∷ ("KeyB", 0x0b)
    ∷ ("KeyQ", 0x0c)
    ∷ ("KeyW", 0x0d)
    ∷ ("KeyE", 0x0e)
    ∷ ("KeyR", 0x0f)
    ∷ ("KeyY", 0x10)
    ∷ ("KeyT", 0x11)
    ∷ ("Digit1", 0x12)
    ∷ ("Digit2", 0x13)
    ∷ ("Digit3", 0x14)
    ∷ ("Digit4", 0x15)
    ∷ ("Digit6", 0x16)
    ∷ ("Digit5", 0x17)
    ∷ ("Equal", 0x18)
    ∷ ("Digit9", 0x19)
    ∷ ("Digit7", 0x1a)
    ∷ ("Minus", 0x1b)
    ∷ ("Digit8", 0x1c)
    ∷ ("Digit0", 0x1d)
    ∷ ("BracketRight", 0x1e)
    ∷ ("KeyO", 0x1f)
    ∷ ("KeyU", 0x20)
    ∷ ("BracketLeft", 0x21)
    ∷ ("KeyI", 0x22)
    ∷ ("KeyP", 0x23)
    ∷ ("Enter", 0x24)
    ∷ ("KeyL", 0x25)
    ∷ ("KeyJ", 0x26)
    ∷ ("Quote", 0x27)
    ∷ ("KeyK", 0x28)
    ∷ ("Semicolon", 0x29)
    ∷ ("Backslash", 0x2a)
    ∷ ("Comma", 0x2b)
    ∷ ("Slash", 0x2c)
    ∷ ("KeyN", 0x2d)
    ∷ ("KeyM", 0x2e)
    ∷ ("Period", 0x2f)
    ∷ ("Tab", 0x30)
    ∷ ("Space", 0x31)
    ∷ ("Backquote", 0x32)
    ∷ ("Backspace", 0x33)
    ∷ ("Escape", 0x35)
    ∷ ("MetaRight", 0x36)
    ∷ ("MetaLeft", 0x37)
    ∷ ("ShiftLeft", 0x38)
    ∷ ("CapsLock", 0x39)
    ∷ ("AltLeft", 0x3a)
    ∷ ("ControlLeft", 0x3b)
    ∷ ("ShiftRight", 0x3c)
    ∷ ("AltRight", 0x3d)
    ∷ ("ControlRight", 0x3e)
    ∷ ("NumpadDecimal", 0x41)
    ∷ ("NumpadMultiply", 0x43)
    ∷ ("NumpadAdd", 0x45)
    ∷ ("NumpadDivide", 0x4b)
    ∷ ("NumpadEnter", 0x4c)
    ∷ ("NumpadSubtract", 0x4e)
    ∷ ("Numpad0", 0x52)
    ∷ ("Numpad1", 0x53)
    ∷ ("Numpad2", 0x54)
    ∷ ("Numpad3", 0x55)
    ∷ ("Numpad4", 0x56)
    ∷ ("Numpad5", 0x57)
    ∷ ("Numpad6", 0x58)
    ∷ ("Numpad7", 0x59)
    ∷ ("Numpad8", 0x5b)
    ∷ ("Numpad9", 0x5c)
    ∷ ("F5", 0x60)
    ∷ ("F6", 0x61)
    ∷ ("F7", 0x62)
    ∷ ("F3", 0x63)
    ∷ ("F8", 0x64)
    ∷ ("F9", 0x65)
    ∷ ("F11", 0x67)
    ∷ ("F13", 0x69)
    ∷ ("F16", 0x6a)
    ∷ ("F14", 0x6b)
    ∷ ("F10", 0x6d)
    ∷ ("F12", 0x6f)
    ∷ ("F15", 0x71)
    ∷ ("Insert", 0x72)
    ∷ ("Home", 0x73)
    ∷ ("PageUp", 0x74)
    ∷ ("Delete", 0x75)
    ∷ ("F4", 0x76)
    ∷ ("End", 0x77)
    ∷ ("F2", 0x78)
    ∷ ("PageDown", 0x79)
    ∷ ("F1", 0x7a)
    ∷ ("ArrowLeft", 0x7b)
    ∷ ("ArrowRight", 0x7c)
    ∷ ("ArrowDown", 0x7d)
    ∷ ("ArrowUp", 0x7e)
    ∷ []

abbrev pub windows_keys : Assoc String ℕ
windows_keys =
    ("Escape", 0x01)
    ∷ ("Digit1", 0x02)
    ∷ ("Digit2", 0x03)
    ∷ ("Digit3", 0x04)
    ∷ ("Digit4", 0x05)
    ∷ ("Digit5", 0x06)
    ∷ ("Digit6", 0x07)
    ∷ ("Digit7", 0x08)
    ∷ ("Digit8", 0x09)
    ∷ ("Digit9", 0x0a)
    ∷ ("Digit0", 0x0b)
    ∷ ("Minus", 0x0c)
    ∷ ("Equal", 0x0d)
    ∷ ("Backspace", 0x0e)
    ∷ ("Tab", 0x0f)
    ∷ ("KeyQ", 0x10)
    ∷ ("KeyW", 0x11)
    ∷ ("KeyE", 0x12)
    ∷ ("KeyR", 0x13)
    ∷ ("KeyT", 0x14)
    ∷ ("KeyY", 0x15)
    ∷ ("KeyU", 0x16)
    ∷ ("KeyI", 0x17)
    ∷ ("KeyO", 0x18)
    ∷ ("KeyP", 0x19)
    ∷ ("BracketLeft", 0x1a)
    ∷ ("BracketRight", 0x1b)
    ∷ ("Enter", 0x1c)
    ∷ ("NumpadEnter", 0xe01c)
    ∷ ("ControlLeft", 0x1d)
    ∷ ("ControlRight", 0xe01d)
    ∷ ("KeyA", 0x1e)
    ∷ ("KeyS", 0x1f)
    ∷ ("KeyD", 0x20)
    ∷ ("KeyF", 0x21)
    ∷ ("KeyG", 0x22)
    ∷ ("KeyH", 0x23)
    ∷ ("KeyJ", 0x24)
    ∷ ("KeyK", 0x25)
    ∷ ("KeyL", 0x26)
    ∷ ("Semicolon", 0x27)
    ∷ ("Quote", 0x28)
    ∷ ("Backquote", 0x29)
    ∷ ("ShiftLeft", 0x2a)
    ∷ ("Backslash", 0x2b)
    ∷ ("KeyZ", 0x2c)
    ∷ ("KeyX", 0x2d)
    ∷ ("KeyC", 0x2e)
    ∷ ("KeyV", 0x2f)
    ∷ ("KeyB", 0x30)
    ∷ ("KeyN", 0x31)
    ∷ ("KeyM", 0x32)
    ∷ ("Comma", 0x33)
    ∷ ("Period", 0x34)
    ∷ ("Slash", 0x35)
    ∷ ("NumpadDivide", 0xe035)
    ∷ ("ShiftRight", 0x36)
    ∷ ("NumpadMultiply", 0x37)
    ∷ ("AltLeft", 0x38)
    ∷ ("AltRight", 0xe038)
    ∷ ("Space", 0x39)
    ∷ ("CapsLock", 0x3a)
    ∷ ("F1", 0x3b)
    ∷ ("F2", 0x3c)
    ∷ ("F3", 0x3d)
    ∷ ("F4", 0x3e)
    ∷ ("F5", 0x3f)
    ∷ ("F6", 0x40)
    ∷ ("F7", 0x41)
    ∷ ("F8", 0x42)
    ∷ ("F9", 0x43)
    ∷ ("F10", 0x44)
    ∷ ("Home", 0xe047)
    ∷ ("Numpad7", 0x47)
    ∷ ("ArrowUp", 0xe048)
    ∷ ("Numpad8", 0x48)
    ∷ ("PageUp", 0xe049)
    ∷ ("Numpad9", 0x49)
    ∷ ("NumpadSubtract", 0x4a)
    ∷ ("ArrowLeft", 0xe04b)
    ∷ ("Numpad4", 0x4b)
    ∷ ("Numpad5", 0x4c)
    ∷ ("ArrowRight", 0xe04d)
    ∷ ("Numpad6", 0x4d)
    ∷ ("NumpadAdd", 0x4e)
    ∷ ("End", 0xe04f)
    ∷ ("Numpad1", 0x4f)
    ∷ ("ArrowDown", 0xe050)
    ∷ ("Numpad2", 0x50)
    ∷ ("PageDown", 0xe051)
    ∷ ("Numpad3", 0x51)
    ∷ ("Insert", 0xe052)
    ∷ ("Numpad0", 0x52)
    ∷ ("Delete", 0xe053)
    ∷ ("NumpadDecimal", 0x53)
    ∷ ("IntlBackslash", 0x56)
    ∷ ("F11", 0x57)
    ∷ ("F12", 0x58)
    ∷ ("MetaLeft", 0xe05b)
    ∷ ("MetaRight", 0xe05c)
    ∷ ("ContextMenu", 0xe05d)
    ∷ ("PrintScreen", 0xe037)
    ∷ []

-- The systems that the host is built for.
pub data System : Type 0 where
  macos windows other : System

unfoldable pub to_keycode_macos : String → Option ℕ
to_keycode_macos code = get code macos_keys

unfoldable pub to_keycode_windows : String → Option ℕ
to_keycode_windows code = get code windows_keys

unfoldable pub to_keycode : System → String → Option ℕ
unfolding to_keycode_macos to_keycode_windows
to_keycode macos code = to_keycode_macos code
to_keycode windows code = to_keycode_windows code
to_keycode other code = none

-- The base byte of a scancode, and whether it has the prefix of an extended key.
unfoldable pub scan_parts : ℕ → ℕ × Bool
scan_parts scan =
    if bit_and scan 0xff00 == 0xe000 then (bit_and scan 0x00ff, true) else (scan, false)
